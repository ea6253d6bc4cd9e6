-- ===== src/Tests/TogetherTests.antt =====
-- A device and the server together, at concrete inputs.
use esp32_fl.Base.{ℕ, ◌≡◌, refl, String, true, Option, none, some, arith, str_eq, if◌then◌else◌}
use esp32_fl.Server.{FederatedLearning}
use esp32_fl.Server.Registry.Status.{Offered, handle_get_checkmodelstatus-one}
use esp32_fl.Server.Http.{status_json, handle_request}
use esp32_fl.Server.Http.Requests.{Answers, status-written, model-written, handle_request-Answers}
use esp32_fl.Json.Objects
use esp32_fl.Json.Writer.{federated_learning_to_json}
use esp32_fl.Device.Interaction.{Surroundings}
use esp32_fl.Device.Interaction.Sends.{Sends}
use esp32_fl.Device.Interaction.Awaited.{Delivered, deep_learning_round-Offered}
use esp32_fl.Tests.Samples.{natural_arith, evaluation}
use esp32_fl.Tests.JsonTests.{memory}
use esp32_fl.Tests.ServerTests.{control-IsValid}
use esp32_fl.Tests.JsonTree.{Tree, tree_json, tree_json-IsLawful, get_item}
use esp32_fl.Tests.DeviceTests.{
  state, device, dataset, print, on_data, deep_network-IsWritable, deep_network-sized,
  deep_network-IsTrainable,
}

-- The text of an object with a status, and that of every other tree.
abbrev print_tree : Tree → String
print_tree t = elim (get_item t "status") [ none ↦ "model" | some _ ↦ "status" ]

abbrev ready_json : Tree
ready_json = status_json natural_arith tree_json print_tree str_eq 1

abbrev parse : String → Option Tree
parse text =
    if str_eq text "status"
    then some ready_json
    else if str_eq text "model"
    then some (federated_learning_to_json natural_arith tree_json state)
    else none

ready_json-parsed : parse (print_tree ready_json) ≡ some ready_json
unfolding esp32_fl.Json.Objects.object_of esp32_fl.Json.Objects.add_items
ready_json-parsed = refl

model-parsed :
    parse (print_tree (federated_learning_to_json natural_arith tree_json state))
    ≡ some (federated_learning_to_json natural_arith tree_json state)
unfolding esp32_fl.Json.Objects.object_of esp32_fl.Json.Objects.add_items federated_learning_to_json
    esp32_fl.Json.Writer.model_to_json
model-parsed = refl

-- A request is its text up to the line's end.
abbrev status_request : String
status_request = "GET /api/checkglobalmodel HTTP/1.1"

abbrev model_request : String
model_request = "GET /api/getglobalmodel HTTP/1.1"

handle_request-Answers_example :
    Answers natural_arith tree_json print_tree str_eq status_request "10.0.0.1" state
      (handle_request natural_arith tree_json print_tree str_eq status_request "10.0.0.1" state)
handle_request-Answers_example =
    handle_request-Answers natural_arith tree_json print_tree str_eq status_request "10.0.0.1" state
      (control-IsValid 2 (omega arith) (omega arith))

state-Offered : Offered "10.0.0.1" state
unfolding esp32_fl.Server.Registry.find_node
state-Offered = record {
  client = record { ip_id = "10.0.0.1"; interaction = 0 };
  found = refl;
  pending = refl;
  unfinished = λ e. omega (arith, e);
  full = refl;
  ready = λ e. omega (arith, e);
}

abbrev surroundings : Surroundings ℕ
surroundings = record {
  status_events = on_data (print_tree ready_json);
  model_events = on_data (print_tree (federated_learning_to_json natural_arith tree_json state));
  dataset = dataset;
  evaluation = evaluation;
  connected = true;
}

status-Delivered :
    Delivered natural_arith tree_json tree_json-IsLawful parse print_tree print str_eq memory 0
      status_request "10.0.0.1" state surroundings.status_events
status-Delivered = record {
  body = print_tree ready_json;
  written =
      status-written natural_arith tree_json print_tree str_eq status_request "10.0.0.1" state 1
        refl ((handle_get_checkmodelstatus-one "10.0.0.1" state).1 state-Offered);
  arrived = refl;
}

model-Delivered :
    Delivered natural_arith tree_json tree_json-IsLawful parse print_tree print str_eq memory 0
      model_request "10.0.0.1" state surroundings.model_events
model-Delivered = record {
  body = print_tree (federated_learning_to_json natural_arith tree_json state);
  written =
      model-written natural_arith tree_json print_tree str_eq model_request "10.0.0.1" state refl
        refl refl;
  arrived = refl;
}

deep_learning_round-Offered_example :
    Sends natural_arith tree_json tree_json-IsLawful parse print memory 0 surroundings device state
deep_learning_round-Offered_example =
    deep_learning_round-Offered natural_arith tree_json tree_json-IsLawful parse print_tree print
      str_eq memory 0 surroundings device state "10.0.0.1" status_request model_request 7 _
      state-Offered refl refl refl refl status-Delivered model-Delivered ready_json-parsed
      model-parsed (omega arith) (omega arith) deep_network-IsWritable deep_network-sized
      deep_network-IsTrainable refl
