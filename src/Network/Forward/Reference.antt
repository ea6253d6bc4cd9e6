-- ===== src/Network/Forward/Reference.antt =====
-- What feeding forward is to compute, layer by layer and with no loop state, and the networks for
-- which it is defined.
use esp32_fl.Base.{
  ℕ, ◌≡◌, ◌≢◌, List, [], ◌∷◌, map, foldl, ◌==◌, if◌then◌else◌, length, All, zip_with, rounds,
}
use esp32_fl.Float.{FloatArith}
use esp32_fl.Network.{Neuron, Layer, NeuralNetwork}
use esp32_fl.Network.Activation.{perceptron, re_lu, sigmoid, soft_max}

module _ (fl : FloatArith) where
  open fl use {F, widen, narrow, of_int, add, mul, add_d, exp}

  abbrev pub set_value : Neuron F → F → Neuron F
  set_value n a = record n { activationfunctionvalue = a }

  -- Bias plus the products of weights and inputs, added from the left.
  abbrev pub affine : List (Neuron F) → Neuron F → F
  affine ps n =
      foldl add (add (of_int 0) n.bias)
        (zip_with (λ w p. mul w (Neuron.activationfunctionvalue p)) n.weight_list ps)

  -- The functions of one value.
  abbrev pub activate : ℕ → F → F
  activate ty z =
      if ty == 1
      then perceptron fl z
      else if ty == 2
      then re_lu fl z
      else if ty == 3
      then sigmoid fl z
      else of_int 0

  abbrev pub add_exp : F → F → F
  add_exp s z = narrow (add_d (widen s) (exp (widen z)))

  abbrev pub softmax_total : List (Neuron F) → List (Neuron F) → F
  softmax_total ps ns = foldl add_exp (of_int 0) (map (affine ps) ns)

  abbrev pub apply_layer : (F → F) → List (Neuron F) → List (Neuron F) → List (Neuron F)
  apply_layer act ps ns = map (λ n. set_value n (act (affine ps n))) ns

  abbrev pub hidden_layer : List (Neuron F) → Layer F → Layer F
  hidden_layer ps l = record l {
    neuron_list = apply_layer (activate l.activationfunctiontype) ps l.neuron_list;
  }

  abbrev pub output_layer : List (Neuron F) → Layer F → Layer F
  output_layer ps l =
      if l.activationfunctiontype == 4
      then record l {
        neuron_list =
            apply_layer (λ z. soft_max fl z (softmax_total ps l.neuron_list)) ps l.neuron_list;
      }
      else hidden_layer ps l

  abbrev pub outputs : List (Neuron F) → List (Layer F) → List (Layer F)
  outputs ps [] = []
  outputs ps (l ∷ []) = output_layer ps l ∷ []
  outputs ps (l ∷ m ∷ ls) = hidden_layer ps l ∷ outputs (hidden_layer ps l).neuron_list (m ∷ ls)

  -- The layers of a network after it was fed forward.
  abbrev pub forward : List (Layer F) → List (Layer F)
  forward [] = []
  forward (first ∷ rest) = first ∷ outputs first.neuron_list rest

-- The counts that the loops trust are those of the chains, and a softmax stands in the last layer
-- alone.
module _ {F : Type 0} where
  abbrev pub FitsNeuron : ℕ → Neuron F → Type 0
  FitsNeuron k n = (rounds n.weights ≡ k) × (length n.weight_list ≡ k)

  abbrev pub FitsLayer : ℕ → Layer F → Type 0
  FitsLayer k l = (rounds l.neurons ≡ length l.neuron_list) × All (FitsNeuron k) l.neuron_list

  abbrev pub FitsFrom : ℕ → List (Layer F) → Type 0
  FitsFrom k [] = Unit
  FitsFrom k (l ∷ []) = FitsLayer k l
  FitsFrom k (l ∷ m ∷ ls) =
      FitsLayer k l × (l.activationfunctiontype ≢ 4) × FitsFrom (length l.neuron_list) (m ∷ ls)

  abbrev pub FitsLayers : ℕ → List (Layer F) → Type 0
  FitsLayers n [] = ⊥
  FitsLayers n (first ∷ rest) =
      (rounds n ≡ length (first ∷ rest))
      × (rounds first.neurons ≡ length first.neuron_list)
      × FitsFrom (length first.neuron_list) rest

  abbrev pub IsNetwork : NeuralNetwork F → Type 0
  IsNetwork nn = FitsLayers nn.layers nn.layer_list
