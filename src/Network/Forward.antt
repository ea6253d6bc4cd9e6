-- ===== src/Network/Forward.antt =====
-- `FeedFoward` of the server's federatedlearning.c.
pub mod Reference
pub mod Correct
use esp32_fl.Base.{ℕ, zero, suc, ◌-◌, Option, none, some, List, [], ◌∷◌, ◌++◌, ◌>>=◌, rounds}
use esp32_fl.Float.{FloatArith}
use esp32_fl.Network.{Neuron, Layer, NeuralNetwork}
use esp32_fl.Network.Activation.{pre_activation, activation_function_calculaton}

module _ (fl : FloatArith) where
  open fl use {F}

  -- The loop over the neurons of a layer. `whole` is the network around the neurons of this
  -- layer, those that are done and those to come: the softmax reads it.
  pub feed_neurons :
      ℕ
      → (List (Neuron F) → List (Layer F))
      → ℕ
      → List (Neuron F)
      → (done rest : List (Neuron F)) → Option (List (Neuron F))
  feed_neurons zero whole ty ps done rest = some (done ++ rest)
  feed_neurons (suc i) whole ty ps done [] = none
  feed_neurons (suc i) whole ty ps done (n ∷ rest) = do
    z ← pre_activation fl ps n
    a ← activation_function_calculaton fl (whole (done ++ (n ∷ rest))) z ty
    feed_neurons i whole ty ps (done ++ (record n { activationfunctionvalue = a } ∷ [])) rest

  -- The loop over the layers, at the layer behind `previous`.
  pub feed_layers : ℕ → List (Layer F) → Layer F → List (Layer F) → Option (List (Layer F))
  feed_layers zero before previous rest = some (before ++ (previous ∷ rest))
  feed_layers (suc k) before previous [] = none
  feed_layers (suc k) before previous (l ∷ rest) = do
    ns ←
        feed_neurons (rounds l.neurons)
          (λ ns. before ++ (previous ∷ record l { neuron_list = ns } ∷ rest))
          l.activationfunctiontype previous.neuron_list [] l.neuron_list
    feed_layers k (before ++ (previous ∷ [])) (record l { neuron_list = ns }) rest

  pub feed_foward : NeuralNetwork F → Option (NeuralNetwork F)
  feed_foward nn = elim nn.layer_list [
    | [] ↦ none
    | first ∷ rest ↦ do
      ls ← feed_layers (rounds nn.layers - 1) [] first rest
      some (record nn { layer_list = ls })
  ]
