-- ===== src/Server/Averaging.antt =====
-- `FederatedAveragingSum`, `FederatedAveraging` and `SetNeuralNetworkZeroWeightValue` of the
-- server's federatedlearning.c.
pub mod Vector
pub mod Mean
pub mod Zero
use esp32_fl.Base.{ℕ, Option, none, some, List, [], ◌∷◌, map, ◌>>=◌, traverse, zip_step}
use esp32_fl.Float.{FloatArith}
use esp32_fl.Network.{Neuron, Layer, NeuralNetwork}

module _ (fl : FloatArith) where
  open fl use {F, of_int, add, mul, div}

  -- `g += c * clienttrainingcounter`
  pub add_weighted : ℕ → F → F → F
  add_weighted t g c = add g (mul c (of_int t))

  sum_neuron : ℕ → Neuron F → Neuron F → Option (Neuron F)
  sum_neuron t g c = do
    ws ← zip_step (λ v w. some (add_weighted t v w)) g.weight_list c.weight_list
    some (record g { bias = add_weighted t g.bias c.bias; weight_list = ws })

  sum_layer : ℕ → Layer F → Layer F → Option (Layer F)
  sum_layer t g c = do
    ns ← zip_step (sum_neuron t) g.neuron_list c.neuron_list
    some (record g { neuron_list = ns })

  -- The global network drives the three loops; a client network that is shorter somewhere is
  -- read through a null pointer there.
  pub federated_averaging_sum : NeuralNetwork F → NeuralNetwork F → ℕ → Option (NeuralNetwork F)
  federated_averaging_sum g c t = do
    ls ← zip_step (sum_layer t) g.layer_list c.layer_list
    some (record g { layer_list = ls })

  pub divide : ℕ → F → F
  divide t w = div w (of_int t)

  average_neuron : ℕ → Neuron F → Neuron F
  average_neuron t n = record n {
    bias = divide t n.bias;
    weight_list = map (divide t) n.weight_list;
  }

  average_layer : ℕ → Layer F → Layer F
  average_layer t l = record l { neuron_list = map (average_neuron t) l.neuron_list }

  pub federated_averaging : NeuralNetwork F → ℕ → NeuralNetwork F
  federated_averaging nn t = record nn { layer_list = map (average_layer t) nn.layer_list }

  zero_weights : Neuron F → Neuron F
  zero_weights n = record n { weight_list = map (λ w. of_int 0) n.weight_list }

  -- The bias is cleared before the loop over the neurons, and so at the first one alone.
  zero_layer : Layer F → Option (Layer F)
  zero_layer l = elim l.neuron_list [
    | [] ↦ none
    | n ∷ ns ↦
        some (record l { neuron_list = map zero_weights (record n { bias = of_int 0 } ∷ ns) })
  ]

  pub set_neural_network_zero_weight_value : NeuralNetwork F → Option (NeuralNetwork F)
  set_neural_network_zero_weight_value nn = do
    ls ← traverse zero_layer nn.layer_list
    some (record nn { layer_list = ls })
