-- ===== src/Network/Params.antt =====
-- The parameters of a network as one vector: bias and weights of each neuron, in order.
use esp32_fl.Base.{ℕ, ◌≢◌, List, ◌∷◌, map, length, concat_map}
use esp32_fl.Network.{Neuron, Layer, NeuralNetwork}

module _ {F : Type 0} where
  abbrev pub neuron_params : Neuron F → List F
  neuron_params n = n.bias ∷ n.weight_list

  abbrev pub layer_params : Layer F → List F
  layer_params l = concat_map neuron_params l.neuron_list

  abbrev pub params : NeuralNetwork F → List F
  params nn = concat_map layer_params nn.layer_list

  -- How many weights each neuron of each layer has.
  abbrev pub neuron_shape : Neuron F → ℕ
  neuron_shape n = length n.weight_list

  abbrev pub layer_shape : Layer F → List ℕ
  layer_shape l = map neuron_shape l.neuron_list

  abbrev pub shape : NeuralNetwork F → List (List ℕ)
  shape nn = map layer_shape nn.layer_list

  abbrev pub HasNeurons : Layer F → Type 0
  HasNeurons l = length l.neuron_list ≢ 0

  -- The neuron with `x` for every number: its kind, its count of weights and how many it has.
  abbrev pub blank_neuron : F → Neuron F → Neuron F
  blank_neuron x n = record n {
    activationfunctionvalue = x;
    bias = x;
    weight_list = map (λ _. x) n.weight_list;
  }
