-- ===== src/Network/Free/Frees.antt =====
-- Freeing a network whose nodes lie at different addresses.
use esp32_fl.Base.{
  ℕ, zero, suc, ◌≤◌, ◌≡◌, refl, sym, ap, ◌∙◌, Option, none, some, [], ◌∷◌, ◌++◌, arith,
  if◌then◌else◌, length, length-append,
}
use esp32_fl.Network.Chain.{Ptr}
use esp32_fl.Network.Free.{
  Block, Heap, without, free, free_chain, free_weights, free_neurons, free_layers,
  free_neural_network,
}
use esp32_fl.Network.Free.Layout.{
  Layout, nothing, node, addresses, Lies, HasDepth, mem, Once, erase, erase-append, erase-mem,
  Once-Parts, Lies-without, Lies-erase,
}

-- A loop that frees chains nested to this depth: all of their nodes, and no other memory.
abbrev Clears : (Ptr → Heap → Option Heap) → ℕ → ℕ → Type 0
Clears held depth fuel =
    (h : Heap) (p : Ptr) (f : Layout)
    → Lies h p f
    → HasDepth depth f
    → Once (addresses f)
    → length (addresses f) ≤ fuel
    → held p h ≡ some (erase (addresses f) h)

free-erase : (a : ℕ) (h : Heap) (b : Block) → h a ≡ some b → free a h ≡ some (without a h)
unfolding free
free-erase a h b e = rw e refl

free_chain-step :
    (held : Ptr → Heap → Option Heap) (fuel a : ℕ) (h h₁ : Heap) (b : Block)
    → h a ≡ some b
    → held b.first h ≡ some h₁
    → h₁ a ≡ some b
    → free_chain held (suc fuel) (some a) h ≡ free_chain held fuel b.next (without a h₁)
unfolding free_chain
free_chain-step held fuel a h h₁ b at done still = rw (at, done, still) refl

free_chain-Clears :
    (held : Ptr → Heap → Option Heap) (depth most fuel : ℕ)
    → Clears held depth most
    → (h : Heap) (p : Ptr) (f : Layout) → Lies h p f
    → HasDepth (suc depth) f
    → Once (addresses f)
    → length (addresses f) ≤ most
    → length (addresses f) ≤ fuel
    → free_chain held fuel p h ≡ some (erase (addresses f) h)
unfolding free_chain
free_chain-Clears held depth most zero c h p nothing l d o e e' = rw l refl
free_chain-Clears held depth most (suc fuel) c h p nothing l d o e e' = rw l refl
free_chain-Clears held depth most zero c h p (node a inner rest) l d o e e' =
    absurd (omega (arith, length-append (addresses inner) (a ∷ addresses rest)))
free_chain-Clears held depth most (suc fuel) c h p (node a inner rest) (at_p, b, at, l, l') (d, d')
      o e e' =
    let parts = Once-Parts (addresses inner) a (addresses rest) o in
    let size = length-append (addresses inner) (a ∷ addresses rest) in
    let h₁ = erase (addresses inner) h in
    let done = c h b.first inner l d parts.left (omega (arith, size, e)) in
    let still : h₁ a ≡ some b =
      erase-mem (addresses inner) h a ∙ ground (arith, parts.not_left, at) in
    let later : Lies (without a h₁) b.next rest =
      Lies-without rest a h₁ b.next parts.not_right
        (Lies-erase (addresses inner) rest h b.next parts.apart l') in
    let rest_freed =
      free_chain-Clears held depth most fuel c (without a h₁) b.next rest later d' parts.right
        (omega (arith, size, e)) (omega (arith, size, e')) in
    rw
      (
        at_p,
        free_chain-step held fuel a h h₁ b at done still,
        rest_freed,
        erase-append (addresses inner) (a ∷ addresses rest) h,
      )
      refl

-- What lies at depth 0 is nothing.
nothing-Clears : (fuel : ℕ) → Clears (λ _ h. some h) 0 fuel
nothing-Clears fuel h p nothing l d o e = refl
nothing-Clears fuel h p (node a inner rest) l d o e = absurd d

pub free_weights-Clears : (fuel : ℕ) → Clears (free_weights fuel) 1 fuel
unfolding free_weights
free_weights-Clears fuel h p f l d o e =
    free_chain-Clears (λ _ g. some g) 0 fuel fuel (nothing-Clears fuel) h p f l d o e e

free_neurons-Clears : (fuel : ℕ) → Clears (free_neurons fuel) 2 fuel
unfolding free_neurons
free_neurons-Clears fuel h p f l d o e =
    free_chain-Clears (free_weights fuel) 1 fuel fuel (free_weights-Clears fuel) h p f l d o e e

free_layers-Clears : (fuel : ℕ) → Clears (free_layers fuel) 3 fuel
unfolding free_layers
free_layers-Clears fuel h p f l d o e =
    free_chain-Clears (free_neurons fuel) 2 fuel fuel (free_neurons-Clears fuel) h p f l d o e e

-- A network at `a`, with its layers.
pub record IsNetworkAt (h : Heap) (a : ℕ) (layers : Layout) : Type 0 where
  pub block : Block
  pub at : h a ≡ some block
  pub lies : Lies h block.first layers
  pub depth : HasDepth 3 layers
  pub once : Once (addresses layers ++ (a ∷ []))

-- Where a network lies in the memory with its chains of layers, neurons and weights, no two of
-- these nodes at one address, and the fuel is at least the number of nodes: all of it is freed
-- without a fault, and no other memory is.
pub free_neural_network-frees :
    (fuel a : ℕ) (h : Heap) (layers : Layout)
    → IsNetworkAt h a layers
    → length (addresses layers) ≤ fuel
    → (h' : Heap) × (free_neural_network fuel a h ≡ some h')
      × ((x : ℕ) → h' x ≡ (if mem x (addresses layers ++ (a ∷ [])) then none else h x))
unfolding free_neural_network
free_neural_network-frees fuel a h layers n enough =
    let parts = Once-Parts (addresses layers) a [] n.once in
    let h₁ = erase (addresses layers) h in
    let done = free_layers-Clears fuel h n.block.first layers n.lies n.depth parts.left enough in
    let still : h₁ a ≡ some n.block =
      erase-mem (addresses layers) h a ∙ ground (arith, parts.not_left, n.at) in
    (
      without a h₁,
      rw (n.at, done) (free-erase a h₁ n.block still),
      λ x.
          ap (λ g. g x) (sym (erase-append (addresses layers) (a ∷ []) h))
          ∙ erase-mem (addresses layers ++ (a ∷ [])) h x,
    )

-- A loop that comes to memory that was freed, or has no fuel left.
free_chain-gone :
    (held : Ptr → Heap → Option Heap) (fuel a : ℕ) (h : Heap)
    → h a ≡ none
    → free_chain held fuel (some a) h ≡ none
unfolding free_chain
free_chain-gone held zero a h e = refl
free_chain-gone held (suc fuel) a h e = rw e refl

-- A node that is its own successor: when it was freed it is read again.
pub free_weights-loop :
    (fuel a : ℕ) (h : Heap) (b : Block)
    → h a ≡ some b
    → b.next ≡ some a
    → free_weights fuel (some a) h ≡ none
unfolding free_weights free_chain
free_weights-loop zero a h b at self = refl
free_weights-loop (suc fuel) a h b at self =
    free_chain-step (λ _ g. some g) fuel a h h b at refl at
    ∙ ap (λ p. free_chain (λ _ g. some g) fuel p (without a h)) self
    ∙ free_chain-gone (λ _ g. some g) fuel a (without a h) (ground arith)

pub free_weights-null : (fuel : ℕ) (h : Heap) → free_weights fuel none h ≡ some h
unfolding free_weights free_chain
free_weights-null zero h = refl
free_weights-null (suc fuel) h = refl
