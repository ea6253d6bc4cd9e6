-- ===== src/Device/Interaction.antt =====
-- The loop of main.c: a device asks for the global model, trains it and sends it back. What is
-- read and sent passes through cJSON, the HTTP library and the websocket library.
pub mod Shapes
pub mod Sends
pub mod Awaited
pub mod Together
pub mod Boot
use esp32_fl.Base.{
  ℕ, String, Bool, true, false, ◌==◌, Option, none, some, List, [], ◌∷◌, if◌then◌else◌, ◌>>=◌,
  add_int,
}
use esp32_fl.Float.{FloatArith}
use esp32_fl.Server.{ClientModel}
use esp32_fl.Network.Metrics.{Evaluation}
use esp32_fl.Json.{Cjson}
use esp32_fl.Json.Reader.{NewMemory}
use esp32_fl.Device.Functions.{federated_learning_to_json, performance_metrics}
use esp32_fl.Device.Training.{DataSet, neural_network_training}
use esp32_fl.Device.HttpClient.{
  Req, Event, getglobalmodel, getglobalmodelstatus, registernode, wait_for_server,
}

-- The static instance, and the answer to the last request.
pub record DeviceState (F J : Type 0) : Type 0 where
  pub instance_model : ClientModel F
  pub req : Req J

-- What one round of the loop meets.
pub record Surroundings (F : Type 0) : Type 0 where
  pub status_events : List Event
  pub model_events : List Event
  pub dataset : DataSet F
  pub evaluation : Evaluation F
  pub connected : Bool

-- How a round ends: there was nothing to do, no model arrived, the model could not be printed and
-- the device stops, or the model was trained, and sent if the websocket is connected.
pub data Outcome : Type 0 where
  waited : Outcome
  no_model : Outcome
  stopped : Outcome
  trained_model : Option String → Outcome

-- `getFederatedLearningInstance` before the first model: the network is memory that is never set.
abbrev pub first_instance : {F : Type 0} → ClientModel F
first_instance = record { globalmodelstatus = 0; trainingscounter = 0; neuralnetwork = none }

abbrev pub replace_neural_network : {F : Type 0} → ClientModel F → ClientModel F → ClientModel F
replace_neural_network model s = record s {
  neuralnetwork = model.neuralnetwork;
  trainingscounter = 0;
}

-- `DATA_COUNT`
abbrev pub data_count : ℕ
data_count = 40

-- The text of the model, as `websocket_send_local_model` sends it.
abbrev pub outcome_of : Bool → Option String → Outcome
outcome_of connected none = stopped
outcome_of connected (some text) = trained_model (if connected then some text else none)

-- `return` ends the loop.
abbrev pub goes_on : Outcome → Bool
goes_on stopped = false
goes_on waited = true
goes_on no_model = true
goes_on (trained_model text) = true

module _ (fl : FloatArith) (json : Cjson (FloatArith.D fl))
    (parse : String → Option (Cjson.Json json)) (print : Cjson.Json json → Option String)
    (memory : NewMemory (FloatArith.F fl)) where
  open fl use {F}
  open json use {Json}

  -- Training, evaluation and the message, with a new model.
  pub train_and_send : Surroundings F → ClientModel F → Option (ClientModel F × Outcome)
  train_and_send i s = do
    nn ← s.neuralnetwork
    (nn₁, errors) ← neural_network_training fl i.dataset nn
    (nn₂, counts) ← performance_metrics fl i.evaluation nn₁ data_count
    let s' : ClientModel F = record s {
      trainingscounter = add_int s.trainingscounter 1;
      neuralnetwork = some nn₂;
    }
    item ← federated_learning_to_json fl json s'
    some (s', outcome_of i.connected (print item))

  pub use_model :
      Surroundings F
      → Option (ClientModel F)
      → DeviceState F Json
      → Option (DeviceState F Json × Outcome)
  use_model i none st = some (st, no_model)
  use_model i (some model) st = do
    (s, outcome) ← train_and_send i (replace_neural_network model st.instance_model)
    some (record st { instance_model = s }, outcome)

  -- One round of the loop.
  pub deep_learning_round :
      Surroundings F → DeviceState F Json → Option (DeviceState F Json × Outcome)
  deep_learning_round i st = do
    (status, r) ← getglobalmodelstatus fl json parse memory i.status_events st.req
    if status == 1
        then (do
          (model, r') ← getglobalmodel fl json parse memory i.model_events r
          use_model i model (record st { req = r' }))
        else some (record st { req = r }, waited)

  -- The loop, for as many rounds as there are surroundings for.
  pub deep_learning_rounds :
      List (Surroundings F) → DeviceState F Json → Option (DeviceState F Json × List Outcome)
  deep_learning_rounds [] st = some (st, [])
  deep_learning_rounds (i ∷ is) st = do
    (st', outcome) ← deep_learning_round i st
    (st'', outcomes) ← elim (goes_on outcome) [
      | true ↦ deep_learning_rounds is st'
      | false ↦ some (st', [])
    ]
    some (st'', outcome ∷ outcomes)

  -- `deep_learning`: the wait for the server, with the events of each attempt, the registration,
  -- and the loop. Without fuel left for the wait it is still waiting.
  pub deep_learning :
      ℕ
      → (ℕ → List Event)
      → List Event
      → List (Surroundings F)
      → DeviceState F Json
      → Option (DeviceState F Json × List Outcome)
  deep_learning fuel attempts registration is st = do
    (attempt, r) ← wait_for_server fl json parse memory fuel 0 attempts st.req
    elim attempt [
      | none ↦ some (record st { req = r }, [])
      | some n ↦ do
        r' ← registernode fl json parse memory registration r
        deep_learning_rounds is (record st { req = r' })
    ]
