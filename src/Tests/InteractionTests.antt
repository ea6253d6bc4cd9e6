-- ===== src/Tests/InteractionTests.antt =====
-- A whole interaction of two devices.
use esp32_fl.Base.{
  ℕ, refl, ◌≡◌, String, Option, none, some, [], ◌∷◌, ◌++◌, map, All, arith, str_eq, if◌then◌else◌,
}
use esp32_fl.Network.{NeuralNetwork}
use esp32_fl.Server.{FederatedLearning}
use esp32_fl.Server.Aggregation.Finish.{IsAggregable}
use esp32_fl.Json.Writer.{model_to_json}
use esp32_fl.Json.Exchange.{Averaged}
use esp32_fl.Device.Functions.{federated_learning_to_json}
use esp32_fl.Device.HttpClient.{Req}
use esp32_fl.Device.Interaction.{Surroundings, Outcome, deep_learning}
use esp32_fl.Device.Interaction.Boot.{booted, registered, Waits, deep_learning-trains}
use esp32_fl.Device.Interaction.Sends.{Asked, IsTrained, Sends, deep_learning_round-Sends}
use esp32_fl.Device.Interaction.Together.{
  Contribution, Contributed, posted_of, interaction-Averaged,
}
use esp32_fl.Tests.Samples.{natural_arith, evaluation}
use esp32_fl.Tests.ServerTests.{nodes-Distinct}
use esp32_fl.Tests.JsonTests.{memory}
use esp32_fl.Tests.JsonTree.{Tree, tree_json, tree_json-IsLawful}
use esp32_fl.Tests.HttpTests.{attempts, silent}
use esp32_fl.Tests.DeviceTests.{
  on_data, state, device, print, parse, surroundings, deep_network, deep_network-IsNetwork,
  deep_network-IsWritable, deep_network-sized, deep_network-IsTrainable,
}

-- The server whose sums have the shape of its network.
abbrev full_state : FederatedLearning ℕ
full_state = record state {
  nodecontrol = record state.nodecontrol { neuralnetwork = deep_network };
}

deep_network-IsAggregable : IsAggregable deep_network
deep_network-IsAggregable = record {
  network = deep_network-IsNetwork;
  several = refl;
  neurons = (
    (λ e. omega (arith, e)),
    ((λ e. omega (arith, e)), ((λ e. omega (arith, e)), ((λ e. omega (arith, e)), tt))),
  );
  size = 7;
  sized = deep_network-sized;
  room = omega arith;
  wide = omega arith;
}

device-Asked :
    Asked natural_arith tree_json tree_json-IsLawful parse print memory 0 surroundings device state
device-Asked = record {
  reply = Tree.with_item Tree.empty_object "status" (Tree.number 1);
  size = 7;
  rows = _;
  says = refl;
  ready = (Tree.number 1, refl, refl, refl);
  sent = refl;
  status = omega arith;
  counter = omega arith;
  writable = deep_network-IsWritable;
  sized = deep_network-sized;
  trainable = deep_network-IsTrainable;
  opened = refl;
}

abbrev device-Sends :
    Sends natural_arith tree_json tree_json-IsLawful parse print memory 0 surroundings device state
device-Sends =
    deep_learning_round-Sends natural_arith tree_json tree_json-IsLawful parse print memory 0
      surroundings device state device-Asked

abbrev parse_message : String → Option Tree
parse_message text =
    if str_eq text "trained"
    then some (model_to_json natural_arith tree_json 0 1 device-Sends.network)
    else none

parse_printed :
    (item : Tree)
    → federated_learning_to_json natural_arith tree_json (record {
      globalmodelstatus = 0;
      trainingscounter = 1;
      neuralnetwork = some device-Sends.network;
    })
      ≡ some item
    → print item ≡ some "trained"
    → parse_message "trained" ≡ some item
unfolding federated_learning_to_json
parse_printed item e p = e

abbrev contribution :
    String
    → Contribution natural_arith tree_json tree_json-IsLawful parse parse_message print memory 0
        deep_network
contribution ip = record {
  ip = ip;
  message = "trained";
  surroundings = surroundings;
  device = device;
  seen = state;
  same = refl;
  asked = device-Asked;
  small = omega arith;
  after = _;
  network = device-Sends.network;
  holds = refl;
  round = device-Sends.runs;
  faithful = parse_printed;
}

interaction-Averaged_example :
    All
      (Contributed natural_arith tree_json tree_json-IsLawful parse parse_message print memory 0)
      (contribution "10.0.0.2" ∷ contribution "10.0.0.1" ∷ [])
    × Averaged natural_arith tree_json tree_json-IsLawful memory evaluation parse_message
        (map
          (posted_of natural_arith tree_json tree_json-IsLawful parse parse_message print memory 0)
          (contribution "10.0.0.2" ∷ contribution "10.0.0.1" ∷ []))
        full_state
interaction-Averaged_example =
    interaction-Averaged natural_arith tree_json tree_json-IsLawful parse parse_message print memory
      0 evaluation full_state (contribution "10.0.0.2") (contribution "10.0.0.1" ∷ []) _ refl
      (omega arith) nodes-Distinct deep_network-IsAggregable deep_network-IsWritable refl
      (refl, (refl, refl))

-- A round before there is a model.
abbrev idle : Surroundings ℕ
idle = record surroundings { status_events = on_data "idle" }

idle-Waits : Waits natural_arith tree_json tree_json-IsLawful parse print memory 0 idle
idle-Waits = record {
  reply = _;
  status = 0;
  arrived = refl;
  said = (Tree.number 0, refl, refl, refl);
  other = λ e. omega (arith, e);
}

registered-Asked :
    Asked natural_arith tree_json tree_json-IsLawful parse print memory 0 surroundings
      (registered natural_arith tree_json tree_json-IsLawful parse print memory 0)
      state
registered-Asked = record device-Asked {}

deep_learning-trains_example :
    (network : NeuralNetwork ℕ) × IsTrained natural_arith tree_json tree_json-IsLawful parse print
      memory 0 surroundings state network
    × (deep_learning natural_arith tree_json parse print memory 5 attempts
          (on_data "status")
          ((idle ∷ idle ∷ []) ++ (surroundings ∷ []))
          (booted natural_arith tree_json tree_json-IsLawful parse print memory 0)
        ≡ some (
          record {
            instance_model = record {
              globalmodelstatus = 0;
              trainingscounter = 1;
              neuralnetwork = some network;
            };
            req = Req.deleted_req;
          },
          Outcome.waited ∷ Outcome.waited ∷ Outcome.trained_model (some "trained") ∷ [],
        ))
deep_learning-trains_example =
    deep_learning-trains natural_arith tree_json tree_json-IsLawful parse print memory 0 2 5
      attempts (on_data "status") (idle ∷ idle ∷ []) surroundings state _ _ (omega arith) silent
      refl refl (idle-Waits, (idle-Waits, tt)) registered-Asked
