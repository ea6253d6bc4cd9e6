-- ===== src/Device/BackPropagation/Reference.antt =====
-- What back propagation is to compute: each layer from the one behind it.
use esp32_fl.Base.{ℕ, zero, suc, ◌≡◌, List, [], ◌∷◌, foldl, zip_with, length, rounds}
use esp32_fl.Float.{FloatArith}
use esp32_fl.Network.{Neuron, Layer, NeuralNetwork}
use esp32_fl.Network.Forward.Reference.{FitsLayer}
use esp32_fl.Device.Gradient.{activation_function_derivative_calculation}
use esp32_fl.Device.BackPropagation.{descend, from_last}

module _ (fl : FloatArith) (alpha : FloatArith.F fl) (regularization : ℕ)
    (lambda : FloatArith.F fl) where
  open fl use {F, of_int, add, mul, neg}

  -- A neuron that learned from `delta`: bias and weights go down their slopes.
  abbrev pub trained_weights : List (Neuron F) → F → List F → List F
  trained_weights ps delta ws =
      zip_with
        (λ w p. descend fl alpha regularization lambda w (Neuron.activationfunctionvalue p) delta)
        ws ps

  abbrev pub trained_neuron : List (Neuron F) → F → Neuron F → Neuron F
  trained_neuron ps delta n = record n {
    bias = descend fl alpha regularization lambda n.bias (of_int 1) delta;
    weight_list = trained_weights ps delta n.weight_list;
  }

  abbrev pub trained_layer : List (Neuron F) → List F → Layer F → Layer F
  trained_layer ps deltas l = record l {
    neuron_list = zip_with (trained_neuron ps) deltas l.neuron_list;
  }

  abbrev pub last_deltas : List (Neuron F) → List F → List F
  last_deltas ns labels = zip_with (λ n y. add (Neuron.activationfunctionvalue n) (neg y)) ns labels

  abbrev pub entry_at : List F → ℕ → F
  entry_at [] i = of_int 0
  entry_at (x ∷ xs) zero = x
  entry_at (x ∷ xs) (suc i) = entry_at xs i

  -- The weight of a neuron for the neuron `i` before it.
  abbrev pub weight_at : ℕ → Neuron F → F
  weight_at i n = entry_at n.weight_list i

  abbrev pub weighted_deltas : ℕ → List F → List (Neuron F) → F
  weighted_deltas i deltas behind =
      foldl add (of_int 0) (zip_with (λ d n. mul d (weight_at i n)) deltas behind)

  -- The deltas of a layer, from those of the layer behind it and its weights as they are by then,
  -- which is after their update.
  abbrev pub deltas_from : ℕ → ℕ → List F → List (Neuron F) → List (Neuron F) → List F
  deltas_from i ty deltas behind [] = []
  deltas_from i ty deltas behind (n ∷ ns) =
      mul (weighted_deltas i deltas behind)
        (activation_function_derivative_calculation fl n.activationfunctionvalue ty)
      ∷ deltas_from (suc i) ty deltas behind ns

  -- From a layer to the first one, which stays as it is.
  abbrev pub train_hidden : List F → List (Neuron F) → List (Layer F) → List (Layer F)
  train_hidden deltas behind [] = []
  train_hidden deltas behind (l ∷ []) = l ∷ []
  train_hidden deltas behind (l ∷ previous ∷ ls) =
      let own = deltas_from 0 l.activationfunctiontype deltas behind l.neuron_list in
      let l' = trained_layer previous.neuron_list own l in
      l' ∷ train_hidden own l'.neuron_list (previous ∷ ls)

  abbrev pub train_back : List F → List (Layer F) → List (Layer F)
  train_back labels [] = []
  train_back labels (l ∷ []) = l ∷ []
  train_back labels (l ∷ previous ∷ ls) =
      let deltas = last_deltas l.neuron_list labels in
      let l' = trained_layer previous.neuron_list deltas l in
      l' ∷ train_hidden deltas l'.neuron_list (previous ∷ ls)

  abbrev pub trained : NeuralNetwork F → List F → NeuralNetwork F
  trained nn labels = record nn {
    layer_list = from_last (train_back labels (from_last nn.layer_list [])) [];
  }

-- The layers from the last to the first, each with a weight for each neuron before it.
module _ {F : Type 0} where
  abbrev pub FitsBack : List (Layer F) → Type 0
  FitsBack [] = ⊥
  FitsBack (l ∷ []) = rounds l.neurons ≡ length l.neuron_list
  FitsBack (l ∷ previous ∷ ls) =
      FitsLayer (length previous.neuron_list) l × FitsBack (previous ∷ ls)

  -- All of these layers but the first of the network have the same number of neurons.
  abbrev pub SameHidden : List (Layer F) → Type 0
  SameHidden [] = Unit
  SameHidden (l ∷ []) = Unit
  SameHidden (l ∷ m ∷ []) = Unit
  SameHidden (l ∷ m ∷ k ∷ ls) =
      (length l.neuron_list ≡ length m.neuron_list) × SameHidden (m ∷ k ∷ ls)

  -- So it is for the layers before the last one.
  abbrev pub SameBefore : List (Layer F) → Type 0
  SameBefore [] = Unit
  SameBefore (l ∷ ls) = SameHidden ls

  -- One label for each neuron of the last layer.
  abbrev pub Labelled : List F → List (Layer F) → Type 0
  Labelled labels [] = Unit
  Labelled labels (l ∷ ls) = length labels ≡ length l.neuron_list
