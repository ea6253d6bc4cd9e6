-- ===== src/Device/BackPropagation.antt =====
-- `BackPropagation` of the device's federatedlearning.c. `deltafunctions` is a list of its entries,
-- and the matrix `weights` is a list of its columns, one for each neuron of the layer behind. `none`
-- is a null pointer, an access outside of an array, or a read of an entry that was never written.
pub mod Reference
pub mod Steps
pub mod Rounds
pub mod Correct
pub mod Shape
pub mod Short
pub mod Uneven
use esp32_fl.Base.{
  ℕ, zero, suc, ◌-◌, Option, none, some, List, [], ◌∷◌, ◌++◌, leb, length, get_elem?, if◌then◌else◌,
  ◌>>=◌, rounds,
}
use esp32_fl.Float.{FloatArith}
use esp32_fl.Network.{Neuron, Layer, NeuralNetwork}
use esp32_fl.Device.Gradient.{
  activation_function_derivative_calculation, stochastic_gradient_descent_calculation,
}

-- The chain from its last layer on, by `previouslayer`.
unfoldable pub from_last : {A : Type 0} → List A → List A → List A
from_last [] done = done
from_last (x ∷ xs) done = from_last xs (x ∷ done)

-- What one round of the loop over the layers leaves for the next.
pub record Carried (F : Type 0) : Type 0 where
  pub deltafunctionsnumber : ℕ
  pub weightscolumn : ℕ
  pub deltafunctions : List F
  pub weights : List (List F)

-- `memcpy` of the first entries.
pub copy_floats : {F : Type 0} → ℕ → List F → Option (List F)
copy_floats zero xs = some []
copy_floats (suc n) [] = none
copy_floats (suc n) (x ∷ xs) = do rest ← copy_floats n xs; some (x ∷ rest)

module _ (fl : FloatArith) where
  open fl use {F, of_int, add, mul, neg}

  module _ (alpha : F) (regularization : ℕ) (lambda : F) where
    -- `w += StochasticGradientDescentCalculation(w, …)`
    pub descend : F → F → F → F
    descend w output delta =
        add w
          (stochastic_gradient_descent_calculation fl w output delta regularization alpha lambda)

    -- The loop over the weights of a neuron: the updated ones, and those behind them.
    pub update_weights : ℕ → F → List F → List (Neuron F) → Option (List F × List F)
    update_weights zero delta ws ps = some ([], ws)
    update_weights (suc j) delta [] ps = none
    update_weights (suc j) delta (w ∷ ws) [] = none
    update_weights (suc j) delta (w ∷ ws) (p ∷ ps) = do
      (column, left) ← update_weights j delta ws ps
      some (descend w p.activationfunctionvalue delta ∷ column, left)

    pub update_neuron : ℕ → List (Neuron F) → F → Neuron F → Option (Neuron F × List F)
    update_neuron k ps delta n = do
      (column, left) ← update_weights k delta n.weight_list ps
      some (
        record n { bias = descend n.bias (of_int 1) delta; weight_list = column ++ left },
        column,
      )

    -- The loop over the neurons of a layer, with the columns that it writes. `steps` is how often
    -- the loop over the weights runs.
    pub update_neurons :
        (Neuron F → Option ℕ)
        → ℕ
        → List (Neuron F)
        → List F
        → List (Neuron F)
        → Option (List (Neuron F) × List (List F))
    update_neurons steps zero ps deltas ns = some (ns, [])
    update_neurons steps (suc i) ps [] ns = none
    update_neurons steps (suc i) ps (d ∷ deltas) [] = none
    update_neurons steps (suc i) ps (d ∷ deltas) (n ∷ ns) = do
      k ← steps n
      (n', column) ← update_neuron k ps d n
      (ns', columns) ← update_neurons steps i ps deltas ns
      some (n' ∷ ns', column ∷ columns)

    -- `deltafunctions[i] = activationfunctionvalue - label[i]`
    pub output_deltas : ℕ → List (Neuron F) → List F → Option (List F)
    output_deltas zero ns ys = some []
    output_deltas (suc i) [] ys = none
    output_deltas (suc i) (n ∷ ns) [] = none
    output_deltas (suc i) (n ∷ ns) (y ∷ ys) = do
      rest ← output_deltas i ns ys
      some (add n.activationfunctionvalue (neg y) ∷ rest)

    -- The sum over the row `i` of the matrix.
    pub accumulate : ℕ → F → List F → List (List F) → ℕ → Option F
    accumulate zero sum deltas columns i = some sum
    accumulate (suc j) sum [] columns i = none
    accumulate (suc j) sum (d ∷ deltas) [] i = none
    accumulate (suc j) sum (d ∷ deltas) (column ∷ columns) i = do
      w ← get_elem? column i
      accumulate j (add sum (mul d w)) deltas columns i

    -- `weightslines` is the count of this layer, so each entry is written.
    pub hidden_deltas :
        (left i columns : ℕ) → List F → List (List F) → ℕ → List (Neuron F) → Option (List F)
    hidden_deltas zero i columns deltas weights ty ns = some []
    hidden_deltas (suc left) i columns deltas weights ty [] = none
    hidden_deltas (suc left) i columns deltas weights ty (n ∷ ns) = do
      sum ← accumulate columns (of_int 0) deltas weights i
      rest ← hidden_deltas left (suc i) columns deltas weights ty ns
      some (
          mul sum (activation_function_derivative_calculation fl n.activationfunctionvalue ty)
          ∷ rest)

    pub last_round : Layer F → Layer F → List F → Option (Layer F × Carried F)
    last_round l previous label = do
      deltas ← output_deltas (rounds l.neurons) l.neuron_list label
      (ns, columns) ←
          update_neurons (λ n. some (rounds previous.neurons)) (rounds l.neurons)
            previous.neuron_list deltas l.neuron_list
      some (
        record l { neuron_list = ns },
        record {
          deltafunctionsnumber = rounds l.neurons;
          weightscolumn = rounds l.neurons;
          deltafunctions = deltas;
          weights = columns;
        },
      )

    -- The number of entries that the next round copies is set to the count of the layer before.
    pub hidden_round : Carried F → Layer F → Layer F → Option (Layer F × Carried F)
    hidden_round c l previous = do
      copied ← copy_floats c.deltafunctionsnumber c.deltafunctions
      deltas ←
          hidden_deltas (rounds l.neurons) 0 c.weightscolumn copied c.weights
            l.activationfunctiontype l.neuron_list
      (ns, columns) ←
          update_neurons
            (λ n.
              if leb (rounds n.weights) (rounds previous.neurons)
              then some (rounds n.weights)
              else none)
            (rounds l.neurons) previous.neuron_list deltas l.neuron_list
      some (
        record l { neuron_list = ns },
        record {
          deltafunctionsnumber = rounds previous.neurons;
          weightscolumn = rounds l.neurons;
          deltafunctions = deltas;
          weights = columns;
        },
      )

    -- The rounds behind the first one, on the layers from this one to the first.
    pub hidden_rounds : ℕ → Carried F → List (Layer F) → Option (List (Layer F))
    hidden_rounds zero c ls = some ls
    hidden_rounds (suc k) c [] = none
    hidden_rounds (suc k) c (l ∷ []) = none
    hidden_rounds (suc k) c (l ∷ previous ∷ ls) = do
      (l', c') ← hidden_round c l previous
      rest ← hidden_rounds k c' (previous ∷ ls)
      some (l' ∷ rest)

    pub back_rounds : ℕ → List F → List (Layer F) → Option (List (Layer F))
    back_rounds zero label ls = some ls
    back_rounds (suc k) label [] = none
    back_rounds (suc k) label (l ∷ []) = none
    back_rounds (suc k) label (l ∷ previous ∷ ls) = do
      (l', c) ← last_round l previous label
      rest ← hidden_rounds k c (previous ∷ ls)
      some (l' ∷ rest)

  pub back_propagation :
      NeuralNetwork F
      → (label : List F) (alpha : F) (regularization : ℕ) (lambda : F) → Option (NeuralNetwork F)
  back_propagation nn label alpha regularization lambda = do
    first ← get_elem? nn.layer_list 0
    ls ←
        back_rounds alpha regularization lambda (rounds nn.layers - 1) label
          (from_last nn.layer_list [])
    some (record nn { layer_list = from_last ls [] })
