-- ===== src/Network/Sample.antt =====
-- Reading one row of a data set into the network: the part that `PerformanceMetrics` and
-- `NeuralNetworkTraining` share. `strtok` and `strtof` are the C library's: a row is given as the
-- numbers behind its first comma.
pub mod Total
use esp32_fl.Base.{
  ℕ, zero, suc, ◌+◌, Option, none, some, List, [], ◌∷◌, if◌then◌else◌, ltb, set, length, get_elem?,
  ◌>>=◌, rounds,
}
use esp32_fl.Network.{Neuron, Layer, NeuralNetwork}

module _ {F : Type 0} where
  -- The loop that fills `trainingsample` from place `i` on. It stops where the row ends, and a
  -- write behind the array is a fault.
  read_fields : ℕ → ℕ → List F → List F → Option (List F)
  read_fields zero i sample xs = some sample
  read_fields (suc left) i sample [] = some sample
  read_fields (suc left) i sample (x ∷ xs) =
      let rest = read_fields left (suc i) (set sample i x) xs in
      if ltb i (length sample) then rest else none

  -- The values of the first layer are set from the front of the sample.
  set_inputs : ℕ → List F → List (Neuron F) → Option (List (Neuron F))
  set_inputs zero xs ns = some ns
  set_inputs (suc i) xs [] = none
  set_inputs (suc i) [] (n ∷ ns) = none
  set_inputs (suc i) (x ∷ xs) (n ∷ ns) = do
    rest ← set_inputs i xs ns
    some (record n { activationfunctionvalue = x } ∷ rest)

  set_first : List F → List (Layer F) → Option (List (Layer F))
  unfolding set_inputs
  set_first sample [] = none
  set_first sample (l ∷ ls) = do
    ns ← set_inputs (rounds l.neurons) sample l.neuron_list
    some (record l { neuron_list = ns } ∷ ls)

  -- The labels: `k` entries of the sample from place `i` on.
  labels : ℕ → ℕ → List F → Option (List F)
  labels zero i sample = some []
  labels (suc k) i sample = do x ← get_elem? sample i; xs ← labels k (suc i) sample; some (x ∷ xs)

  unfoldable pub last_layer : List (Layer F) → Option (Layer F)
  last_layer [] = none
  last_layer (l ∷ []) = some l
  last_layer (l ∷ m ∷ ls) = last_layer (m ∷ ls)

  -- One row: the sample after it, the labels, and the network with its inputs set. A file that
  -- has ended leaves the sample of the row before.
  pub read_row : List F → List F → NeuralNetwork F → Option (List F × List F × NeuralNetwork F)
  unfolding read_fields set_first labels last_layer
  read_row row sample nn = do
    sample' ← read_fields 7 0 sample row
    ls ← set_first sample' nn.layer_list
    first ← get_elem? nn.layer_list 0
    last ← last_layer nn.layer_list
    ys ← labels (rounds last.neurons) (rounds first.neurons) sample'
    some (sample', ys, record nn { layer_list = ls })
