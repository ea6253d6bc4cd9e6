-- ===== src/Json/Writer.antt =====
-- `FederatedLearningToJSON` of the server's JSONConverter.c. The object of the network is added to
-- its parent before it is filled; here it is filled first.
use esp32_fl.Base.{ℕ, String, List, [], ◌∷◌}
use esp32_fl.Float.{FloatArith}
use esp32_fl.Network.{Neuron, Layer, NeuralNetwork}
use esp32_fl.Server.{FederatedLearning}
use esp32_fl.Json.{Cjson}
use esp32_fl.Json.Objects.{object_of, array_of}

module _ (fl : FloatArith) (json : Cjson (FloatArith.D fl)) where
  open fl use {F, of_int_d, widen}
  open json use {Json, create_number, create_string}

  unfoldable pub int_to_json : ℕ → Json
  int_to_json n = create_number (of_int_d n)

  unfoldable pub float_to_json : F → Json
  float_to_json x = create_number (widen x)

  abbrev pub neuron_items : Neuron F → List (String × Json)
  neuron_items n =
      ("neurontype", create_string n.neurontype)
      ∷ ("weights", int_to_json n.weights)
      ∷ ("bias", float_to_json n.bias)
      ∷ ("weightsArray", array_of json float_to_json n.weight_list)
      ∷ []

  unfoldable pub neuron_to_json : Neuron F → Json
  neuron_to_json n = object_of json (neuron_items n)

  abbrev pub layer_items : Layer F → List (String × Json)
  layer_items l =
      ("activationfunctiontype", int_to_json l.activationfunctiontype)
      ∷ ("neurons", int_to_json l.neurons)
      ∷ ("neuronsArray", array_of json neuron_to_json l.neuron_list)
      ∷ []

  unfoldable pub layer_to_json : Layer F → Json
  layer_to_json l = object_of json (layer_items l)

  abbrev pub neural_network_items : NeuralNetwork F → List (String × Json)
  neural_network_items nn =
      ("epoch", int_to_json nn.epoch)
      ∷ ("alpha", float_to_json nn.alpha)
      ∷ ("regularization", int_to_json nn.regularization)
      ∷ ("lambda", float_to_json nn.lambda)
      ∷ ("percentualtraining", int_to_json nn.percentualtraining)
      ∷ ("lossfunctiontype", int_to_json nn.lossfunctiontype)
      ∷ ("layers", int_to_json nn.layers)
      ∷ ("layersArray", array_of json layer_to_json nn.layer_list)
      ∷ []

  unfoldable pub neural_network_to_json : NeuralNetwork F → Json
  neural_network_to_json nn = object_of json (neural_network_items nn)

  -- Status, counter and network, which are all that is written.
  abbrev pub model_items : ℕ → ℕ → NeuralNetwork F → List (String × Json)
  model_items status counter nn =
      ("globalmodelstatus", int_to_json status)
      ∷ ("trainingscounter", int_to_json counter)
      ∷ ("neuralnetwork", neural_network_to_json nn)
      ∷ []

  unfoldable pub model_to_json : ℕ → ℕ → NeuralNetwork F → Json
  model_to_json status counter nn = object_of json (model_items status counter nn)

  unfoldable pub federated_learning_to_json : FederatedLearning F → Json
  federated_learning_to_json s =
      model_to_json s.globalmodelstatus s.trainingscounter s.neuralnetwork
