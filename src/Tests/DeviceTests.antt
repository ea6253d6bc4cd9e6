-- ===== src/Tests/DeviceTests.antt =====
-- The device at concrete inputs: a network with two hidden layers, a data set that can be opened
-- twice, and a server whose texts are trees.
use esp32_fl.Base.{
  ℕ, ◌≡◌, refl, String, true, Option, none, some, List, [], ◌∷◌, arith, str_eq, if◌then◌else◌, ltb,
}
use esp32_fl.Network.{Layer, NeuralNetwork}
use esp32_fl.Network.Forward.Reference.{IsNetwork}
use esp32_fl.Network.Metrics.{sample_size}
use esp32_fl.Server.{FederatedLearning}
use esp32_fl.Json.Writer.{federated_learning_to_json}
use esp32_fl.Json.Received.{IsWritable}
use esp32_fl.Device.BackPropagation.{from_last, back_propagation}
use esp32_fl.Device.BackPropagation.Reference.{trained, SameBefore, Labelled}
use esp32_fl.Device.BackPropagation.Uneven.{back_propagation-uneven}
use esp32_fl.Device.BackPropagation.Correct.{back_propagation-trained}
use esp32_fl.Device.Training.{DataSet}
use esp32_fl.Device.Training.Runs.{IsTrainable}
use esp32_fl.Device.Training.Epochs.{Trained, neural_network_training-Trained}
use esp32_fl.Device.HttpClient.{Req, Event}
use esp32_fl.Device.Interaction.{DeviceState, Surroundings, first_instance}
use esp32_fl.Tests.Samples.{
  natural_arith, neuron, input_layer, relu_layer, softmax_layer, evaluation, server, network,
}
use esp32_fl.Tests.JsonTree.{Tree, tree_json}

abbrev pub deep_network : NeuralNetwork ℕ
deep_network = record (network 0) {
  epoch = 3;
  percentualtraining = 4;
  lossfunctiontype = 2;
  regularization = 2;
  layers = 4;
  layer_list =
      input_layer
      ∷ relu_layer 1
      ∷ record (softmax_layer 2) { activationfunctiontype = 3 }
      ∷ softmax_layer 1
      ∷ [];
}

pub deep_network-IsNetwork : IsNetwork deep_network
deep_network-IsNetwork = (
  refl,
  refl,
  (
    (refl, ((refl, refl), ((refl, refl), ((refl, refl), tt)))),
    (λ e. omega (arith, e)),
    (
      (refl, ((refl, refl), ((refl, refl), ((refl, refl), tt)))),
      (λ e. omega (arith, e)),
      (refl, ((refl, refl), ((refl, refl), ((refl, refl), tt)))),
    ),
  ),
)

deep_network-SameBefore : SameBefore (from_last deep_network.layer_list [])
unfolding from_last
deep_network-SameBefore = (refl, tt)

deep_network-Labelled : Labelled (1 ∷ 0 ∷ 0 ∷ []) (from_last deep_network.layer_list [])
unfolding from_last
deep_network-Labelled = refl

back_propagation-trained_example :
    back_propagation natural_arith deep_network (1 ∷ 0 ∷ 0 ∷ []) 2 1 3
    ≡ some (trained natural_arith 2 1 3 deep_network (1 ∷ 0 ∷ 0 ∷ []))
back_propagation-trained_example =
    back_propagation-trained natural_arith deep_network (1 ∷ 0 ∷ 0 ∷ []) 2 1 3
      deep_network-IsNetwork deep_network-SameBefore deep_network-Labelled

-- A hidden layer with one neuron less.
abbrev narrow_layer : Layer ℕ
narrow_layer = record {
  activationfunctiontype = 2;
  neurons = 2;
  neuron_list = neuron 4 0 0 (1 ∷ 2 ∷ 3 ∷ 4 ∷ []) ∷ neuron 4 0 1 (0 ∷ 1 ∷ 0 ∷ 1 ∷ []) ∷ [];
}

abbrev wide_layer : Layer ℕ
wide_layer = record {
  activationfunctiontype = 2;
  neurons = 3;
  neuron_list =
      neuron 2 0 0 (1 ∷ 2 ∷ []) ∷ neuron 2 0 1 (0 ∷ 1 ∷ []) ∷ neuron 2 0 0 (2 ∷ 1 ∷ []) ∷ [];
}

abbrev uneven_network : NeuralNetwork ℕ
uneven_network = record deep_network {
  layer_list = input_layer ∷ narrow_layer ∷ wide_layer ∷ softmax_layer 1 ∷ [];
}

back_propagation-uneven_example :
    back_propagation natural_arith uneven_network (1 ∷ 0 ∷ 0 ∷ []) 2 1 3 ≡ none
back_propagation-uneven_example =
    back_propagation-uneven natural_arith uneven_network (1 ∷ 0 ∷ 0 ∷ []) 2 1 3 [] [] input_layer
      narrow_layer wide_layer (softmax_layer 1) refl refl (λ e. omega (arith, e)) (omega arith)

pub deep_network-sized : sample_size deep_network ≡ some 7
unfolding sample_size esp32_fl.Network.Sample.last_layer
deep_network-sized = refl

pub deep_network-IsTrainable : IsTrainable 7 deep_network
deep_network-IsTrainable = record {
  network = deep_network-IsNetwork;
  even = deep_network-SameBefore;
  room = omega arith;
  wide = omega arith;
}

-- The file is gone in the third epoch.
abbrev pub dataset : DataSet ℕ
dataset = record { rows = λ cycle. if ltb cycle 2 then evaluation.rows else none; stack = λ i. i }

neural_network_training-Trained_example : Trained natural_arith 0 dataset deep_network
neural_network_training-Trained_example =
    neural_network_training-Trained natural_arith 0 dataset deep_network 7 deep_network-sized
      deep_network-IsTrainable

abbrev pub state : FederatedLearning ℕ
state = record (server 2) { neuralnetwork = deep_network }

abbrev pub reply : Tree
reply = Tree.with_item Tree.empty_object "status" (Tree.number 1)

abbrev pub parse : String → Option Tree
parse message =
    if str_eq message "status"
    then some reply
    else if str_eq message "idle"
    then some (Tree.with_item Tree.empty_object "status" (Tree.number 0))
    else if str_eq message "model"
    then some (federated_learning_to_json natural_arith tree_json state)
    else none

abbrev pub on_data : String → List Event
on_data message = Event.http_event_on_data message ∷ Event.http_event_disconnected ∷ []

abbrev pub surroundings : Surroundings ℕ
surroundings = record {
  status_events = on_data "status";
  model_events = on_data "model";
  dataset = dataset;
  evaluation = evaluation;
  connected = true;
}

abbrev pub device : DeviceState ℕ Tree
device = record { instance_model = first_instance; req = Req.deleted_req }

-- Every tree is printed as the text "trained".
abbrev pub print : Tree → Option String
print t = some "trained"

pub deep_network-IsWritable : IsWritable deep_network
deep_network-IsWritable = record {
  epoch = omega arith;
  regularization = omega arith;
  percentualtraining = omega arith;
  lossfunctiontype = omega arith;
  layers = omega arith;
  layer_list = omega arith;
}

-- The network with another bias, and a text of it.
abbrev other_network : NeuralNetwork ℕ
other_network = record deep_network {
  layer_list =
      input_layer
      ∷ relu_layer 5
      ∷ record (softmax_layer 6) { activationfunctiontype = 3 }
      ∷ softmax_layer 7
      ∷ [];
}
