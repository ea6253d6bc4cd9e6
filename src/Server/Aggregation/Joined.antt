-- ===== src/Server/Aggregation/Joined.antt =====
-- A model that arrives while another one is awaited: it joins the sums.
use esp32_fl.Base.{String, ◌≡◌, ◌≢◌, refl, ◌∙◌, Option, some}
use esp32_fl.Float.{FloatArith}
use esp32_fl.Network.Params.{shape}
use esp32_fl.Network.Metrics.{Evaluation}
use esp32_fl.Server.{ClientNode, FederatedLearning, ClientModel}
use esp32_fl.Server.Averaging.Mean.{shape_congr}
use esp32_fl.Server.Registry.{find_node}
use esp32_fl.Server.Aggregation.{handle_clint_model_message}
use esp32_fl.Server.Aggregation.Pending.{pending-any}
use esp32_fl.Server.Aggregation.Finish.{add_model-Added}
use esp32_fl.Server.Aggregation.Effect.{Counts, handle_clint_model_message-counted}
use esp32_fl.Server.Aggregation.Level.{
  find_node-pending, count_interaction-runs, count_interaction-other,
}
use esp32_fl.Server.Aggregation.Round.{Sent, Fits, handle-runs}

module _ (fl : FloatArith) (env : Evaluation (FloatArith.F fl))
    (decode : String → Option (ClientModel (FloatArith.F fl))) (x : FloatArith.F fl) where
  open fl use {F}

  pub record Joined (other : String) (m : Sent F) (s : FederatedLearning F) : Type 0 where
    pub result : FederatedLearning F
    pub runs : handle_clint_model_message fl env decode m.message m.ip s ≡ some result
    pub counts : Counts m.ip s.nodecontrol result.nodecontrol
    pub keeps : shape result.nodecontrol.neuralnetwork ≡ shape s.nodecontrol.neuralnetwork
    pub still : find_node other result.nodecontrol.nodes ≡ find_node other s.nodecontrol.nodes
    pub current : result.nodecontrol.currentinteraction ≡ s.nodecontrol.currentinteraction

  -- The message of a registered device, awaited or not.
  pub handle-Joined :
      (m : Sent F) (other : String) (s : FederatedLearning F) (n o : ClientNode)
      → Fits fl env decode s.nodecontrol.neuralnetwork m
      → find_node m.ip s.nodecontrol.nodes ≡ some n
      → other ≢ m.ip
      → find_node other s.nodecontrol.nodes ≡ some o
      → o.interaction ≡ s.nodecontrol.currentinteraction
      → Joined other m s
  handle-Joined m other s n o (decoded, given, fits) found ne found' now =
      let (ns, counted) = count_interaction-runs m.ip s.nodecontrol.nodes n found in
      let s₁ : FederatedLearning F = record s {
        nodecontrol = record s.nodecontrol { nodes = ns };
      } in
      let added = add_model-Added fl env x m.client m.network s₁ given fits in
      let still = count_interaction-other m.ip other s.nodecontrol.nodes ne counted in
      let more =
        pending-any s.nodecontrol.currentinteraction other ns
          (find_node-pending s.nodecontrol.currentinteraction other ns o (still ∙ found') now) in
      let runs =
        handle-runs fl env decode x m.message m.ip m.client s ns decoded counted added.runs in
      let done = rw more at runs in
      record {
        result = _;
        runs = done;
        counts = handle_clint_model_message-counted fl env decode m.message m.ip s done decoded;
        keeps = shape_congr x added.sums s.nodecontrol.neuralnetwork added.keeps;
        still = still;
        current = refl;
      }
