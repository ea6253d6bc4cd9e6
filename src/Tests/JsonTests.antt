-- ===== src/Tests/JsonTests.antt =====
-- The conversion to and from JSON at concrete inputs.
use esp32_fl.Base.{
  ℕ, ◌≡◌, refl, String, false, Option, none, some, [], ◌∷◌, arith, str_eq, if◌then◌else◌,
}
use esp32_fl.Json.Writer.{model_to_json}
use esp32_fl.Json.Reader.{NewMemory, json_to_federated_learning}
use esp32_fl.Json.Received.{IsWritable, received}
use esp32_fl.Json.RoundTrip.{read-model_to_json}
use esp32_fl.Json.Exchange.{Posted, Fetched, fetch-Fetched, Averaged, deliver-Averaged}
use esp32_fl.Tests.Samples.{natural_arith, neuron, network, input_layer, evaluation, server}
use esp32_fl.Tests.ServerTests.{nodes-Distinct, network-IsAggregable}
use esp32_fl.Tests.JsonTree.{Tree, tree_json, tree_json-IsLawful}

abbrev pub memory : NewMemory ℕ
memory = record {
  network = network 8;
  layer = λ i. input_layer;
  neuron = λ i j. neuron 9 9 9 [];
  unterminated = λ s. s;
}

network-IsWritable : (b : ℕ) → IsWritable (network b)
network-IsWritable b = record {
  epoch = omega arith;
  regularization = omega arith;
  percentualtraining = omega arith;
  lossfunctiontype = omega arith;
  layers = omega arith;
  layer_list = omega arith;
}

read-model_to_json_example :
    json_to_federated_learning natural_arith tree_json false memory
      (some (model_to_json natural_arith tree_json 1 2 (network 3)))
    ≡ some (record {
      globalmodelstatus = 1;
      trainingscounter = 2;
      neuralnetwork = some (received false memory (network 3));
    })
read-model_to_json_example =
    read-model_to_json natural_arith tree_json tree_json-IsLawful false memory 1 2 (network 3)
      (omega arith) (omega arith) (network-IsWritable 3)

fetch-Fetched_example : Fetched natural_arith tree_json tree_json-IsLawful memory 0 (server 2)
fetch-Fetched_example =
    fetch-Fetched natural_arith tree_json tree_json-IsLawful memory 0 (server 2) (omega arith)
      (omega arith) (network-IsWritable 0)

abbrev posted : String → String → ℕ → Posted ℕ
posted ip message b = record {
  ip = ip;
  message = message;
  status = 0;
  counter = b;
  network = network b;
}

abbrev model : ℕ → Tree
model b = model_to_json natural_arith tree_json 0 b (network b)

abbrev parse : String → Option Tree
parse message =
    if str_eq message "one"
    then some (model 1)
    else if str_eq message "two"
    then some (model 2)
    else none

deliver-Averaged_example :
    Averaged natural_arith tree_json tree_json-IsLawful memory evaluation parse
      (posted "10.0.0.2" "two" 2 ∷ posted "10.0.0.1" "one" 1 ∷ [])
      (server 2)
deliver-Averaged_example =
    deliver-Averaged natural_arith tree_json tree_json-IsLawful memory evaluation parse 0
      (posted "10.0.0.1" "one" 1 ∷ []) (posted "10.0.0.2" "two" 2) (server 2) _ refl (omega arith)
      nodes-Distinct (network-IsAggregable 0)
      (
        (refl, omega arith, omega arith, network-IsWritable 2, refl),
        ((refl, omega arith, omega arith, network-IsWritable 1, refl), tt),
      )
      (refl, (refl, refl))
