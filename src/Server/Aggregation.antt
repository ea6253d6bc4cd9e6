-- ===== src/Server/Aggregation.antt =====
-- `AggregationModel` of the server's federatedlearning.c and `handle_clint_model_message` of
-- websockethandlers.c. The old global network is freed and the new one takes its place: memory is
-- not modelled here.
pub mod Pending
pub mod Finish
pub mod Round
pub mod Effect
pub mod Level
pub mod Joined
use esp32_fl.Base.{
  ℕ, String, Bool, true, false, Option, none, some, List, [], ◌∷◌, ◌^◌, ◌==◌, str_eq, if◌then◌else◌,
  add_int, any, ◌>>=◌,
}
use esp32_fl.Float.{FloatArith}
use esp32_fl.Network.{NeuralNetwork}
use esp32_fl.Network.Copy.{copy_neural_network}
use esp32_fl.Network.Metrics.{Evaluation, performance_metrics}
use esp32_fl.Server.{ClientNode, NodeControl, FederatedLearning, ClientModel}
use esp32_fl.Server.Averaging.{
  federated_averaging_sum, federated_averaging, set_neural_network_zero_weight_value,
}

-- A node whose model for the current interaction has not arrived.
abbrev pub is_pending : ℕ → ClientNode → Bool
is_pending current n = current == n.interaction

-- The search for the node with this address, and `interaction++` there; `none` is the null
-- dereference where there is none.
pub count_interaction : String → List ClientNode → Option (List ClientNode)
count_interaction ip [] = none
count_interaction ip (n ∷ ns) =
    let rest = count_interaction ip ns in
    if str_eq n.ip_id ip
    then some (record n { interaction = add_int n.interaction 1 } ∷ ns)
    else (do ns' ← rest; some (n ∷ ns'))

module _ (fl : FloatArith) (env : Evaluation (FloatArith.F fl)) where
  open fl use {F}

  -- All models of the interaction are in: the average becomes the global network, and the sums
  -- are cleared for the next interaction.
  pub finish_interaction : FederatedLearning F → Option (FederatedLearning F)
  finish_interaction s = do
    let averaged = federated_averaging fl s.nodecontrol.neuralnetwork s.trainingscounter
    global ← copy_neural_network averaged
    cleared ← set_neural_network_zero_weight_value fl averaged
    (measured, _) ← performance_metrics fl env global 30
    some (record {
      globalmodelstatus = 1;
      trainingscounter = 0;
      neuralnetwork = measured;
      nodecontrol = record s.nodecontrol {
        neuralnetwork = cleared;
        currentinteraction = add_int s.nodecontrol.currentinteraction 1;
      };
    })

  -- The client's model is added to the sums.
  pub add_model : ClientModel F → FederatedLearning F → Option (FederatedLearning F)
  add_model client s = do
    c ← client.neuralnetwork
    sums ← federated_averaging_sum fl s.nodecontrol.neuralnetwork c client.trainingscounter
    some (record s {
      globalmodelstatus = 0;
      trainingscounter = add_int s.trainingscounter client.trainingscounter;
      nodecontrol = record s.nodecontrol { neuralnetwork = sums };
    })

  pub aggregation_model : ClientModel F → FederatedLearning F → Option (FederatedLearning F)
  aggregation_model client s = do
    added ← add_model client s
    if any (is_pending added.nodecontrol.currentinteraction) added.nodecontrol.nodes
        then some (record added { globalmodelstatus = 1 })
        else finish_interaction added

  -- `decode` is `strndup` and `cJSON_Parse` followed by `JSONToFederatedLearning`. A text that is
  -- no JSON, or no object, changes nothing.
  pub handle_clint_model_message :
      (decode : String → Option (ClientModel F))
      → String
      → String
      → FederatedLearning F
      → Option (FederatedLearning F)
  handle_clint_model_message decode message ip s = elim (decode message) [
    | none ↦ some s
    | some client ↦ do
      ns ← count_interaction ip s.nodecontrol.nodes
      aggregation_model client (record s { nodecontrol = record s.nodecontrol { nodes = ns } })
  ]
