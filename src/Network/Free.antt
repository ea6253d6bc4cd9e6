-- ===== src/Network/Free.antt =====
-- `freeNeuralNetwork` of federatedlearning.c, the server's and the device's, with the memory: the
-- chains of layers, neurons and weights, each node with its address. A read through a pointer to
-- memory that was freed, and freeing it again, are faults.
pub mod Layout
pub mod Frees
pub mod Copies
use esp32_fl.Base.{ℕ, zero, suc, Option, none, some, List, [], ◌∷◌, ◌==◌, if◌then◌else◌, ◌>>=◌}
use esp32_fl.Network.Chain.{Ptr}

-- What the loops read of a `Layer`, a `Neuron` or a `Weight`: the first node of the chain that it
-- holds (a weight holds none), and the next node of the chain that it is in. Of a `NeuralNetwork`
-- they read `firstlayer`.
pub record Block : Type 0 where
  pub first : Ptr
  pub next : Ptr

-- The memory that is allocated.
abbrev pub Heap : Type 0
Heap = ℕ → Option Block

abbrev pub without : ℕ → Heap → Heap
without a h x = if x == a then none else h x

-- `free`
pub free : ℕ → Heap → Option Heap
free a h = do _ ← h a; some (without a h)

-- `while (p != NULL)`: what the node holds is freed, then the node; its successor is read before
-- that. `none` is also a loop that still runs when its fuel is gone.
unfoldable pub free_chain : (Ptr → Heap → Option Heap) → ℕ → Ptr → Heap → Option Heap
unfolding free
free_chain held fuel none h = some h
free_chain held zero (some a) h = none
free_chain held (suc fuel) (some a) h = do
  b ← h a
  h₁ ← held b.first h
  b' ← h₁ a
  h₂ ← free a h₁
  free_chain held fuel b'.next h₂

-- The three loops, one in the other.
pub free_weights : ℕ → Ptr → Heap → Option Heap
free_weights fuel = free_chain (λ _ h. some h) fuel

pub free_neurons : ℕ → Ptr → Heap → Option Heap
unfolding free_weights
free_neurons fuel = free_chain (free_weights fuel) fuel

pub free_layers : ℕ → Ptr → Heap → Option Heap
unfolding free_neurons
free_layers fuel = free_chain (free_neurons fuel) fuel

-- The server's function, which takes a pointer and frees the network as well.
pub free_neural_network : ℕ → ℕ → Heap → Option Heap
unfolding free_layers
free_neural_network fuel a h = do b ← h a; h₁ ← free_layers fuel b.first h; free a h₁
