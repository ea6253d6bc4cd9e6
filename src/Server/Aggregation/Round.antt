-- ===== src/Server/Aggregation/Round.antt =====
-- An interaction from the first to the last of its messages.
use esp32_fl.Base.{
  ℕ, String, ◌≡◌, ◌<◌, sym, ap, ◌∙◌, true, Option, some, List, [], ◌∷◌, map, foldl, zip_with, All,
  All-mono, any, if◌then◌else◌, add_int, int_mod, ◌>>=◌,
}
use esp32_fl.Float.{FloatArith}
use esp32_fl.Network.{NeuralNetwork}
use esp32_fl.Network.Params.{params, shape, blank_neuron}
use esp32_fl.Network.Remap.{remap}
use esp32_fl.Network.Metrics.{Evaluation}
use esp32_fl.Server.{ClientNode, FederatedLearning, ClientModel}
use esp32_fl.Server.Registry.Valid.{Distinct}
use esp32_fl.Server.Registry.Arrivals.{addresses}
use esp32_fl.Server.Averaging.{add_weighted, divide}
use esp32_fl.Server.Averaging.Mean.{shape_congr}
use esp32_fl.Server.Aggregation.{
  is_pending, count_interaction, add_model, finish_interaction, aggregation_model,
  handle_clint_model_message,
}
use esp32_fl.Server.Aggregation.Pending.{
  pending, mem, remove, IsOrder, any-pending, pending-any, count_interaction-Counted,
}
use esp32_fl.Server.Aggregation.Finish.{
  IsAggregable, IsAggregable-congr, add_model-Added, finish_interaction-Finished,
}

-- A client's message, with what it decodes to.
pub record Sent (F : Type 0) : Type 0 where
  pub ip : String
  pub message : String
  pub client : ClientModel F
  pub network : NeuralNetwork F

module _ (fl : FloatArith) (env : Evaluation (FloatArith.F fl))
    (decode : String → Option (ClientModel (FloatArith.F fl))) where
  open fl use {F}

  -- The server handles one message after the other.
  unfoldable pub deliver : List (Sent F) → FederatedLearning F → Option (FederatedLearning F)
  deliver [] s = some s
  deliver (m ∷ ms) s = do
    s' ← handle_clint_model_message fl env decode m.message m.ip s
    deliver ms s'

  -- The message holds a network of the shape of the sums.
  abbrev pub Fits : NeuralNetwork F → Sent F → Type 0
  Fits sums m =
      (decode m.message ≡ some m.client)
      × (m.client.neuralnetwork ≡ some m.network)
      × (shape sums ≡ shape m.network)

  -- Parameters times counters, added up in the order of arrival; and the counters.
  abbrev pub weigh : List F → Sent F → List F
  weigh p m = zip_with (add_weighted fl m.client.trainingscounter) p (params m.network)

  abbrev pub tally : ℕ → Sent F → ℕ
  tally t m = add_int t m.client.trainingscounter

  -- The outcome of an interaction.
  pub record Round (ms : List (Sent F)) (s : FederatedLearning F) : Type 0 where
    pub result : FederatedLearning F
    pub runs : deliver ms s ≡ some result
    pub average :
        params result.neuralnetwork
        ≡ map
            (divide fl (foldl tally s.trainingscounter ms))
            (foldl weigh (params s.nodecontrol.neuralnetwork) ms)
    pub counter : result.trainingscounter ≡ 0
    pub status : result.globalmodelstatus ≡ 1
    pub same : addresses result.nodecontrol.nodes ≡ addresses s.nodecontrol.nodes
    pub current : result.nodecontrol.currentinteraction ≡ add_int s.nodecontrol.currentinteraction 1

  module _ (x : F) where
    -- The state behind the addition of a message's model.
    abbrev pub with_sums :
        ℕ
        → ClientModel F
        → List ClientNode
        → NeuralNetwork F
        → FederatedLearning F
        → FederatedLearning F
    with_sums status client ns sums s = record s {
      globalmodelstatus = status;
      trainingscounter = add_int s.trainingscounter client.trainingscounter;
      nodecontrol = record s.nodecontrol { nodes = ns; neuralnetwork = sums };
    }

    record Handled (m : Sent F) (s : FederatedLearning F) : Type 0 where
      pub nodes : List ClientNode
      pub sums : NeuralNetwork F
      pub awaited :
          pending s.nodecontrol.currentinteraction nodes
          ≡ remove m.ip (pending s.nodecontrol.currentinteraction s.nodecontrol.nodes)
      pub same : addresses nodes ≡ addresses s.nodecontrol.nodes
      pub distinct : Distinct nodes
      pub vector : params sums ≡ weigh (params s.nodecontrol.neuralnetwork) m
      pub keeps : remap (blank_neuron x) sums ≡ remap (blank_neuron x) s.nodecontrol.neuralnetwork
      pub runs : handle_clint_model_message fl env decode m.message m.ip s ≡ (
          if any (is_pending s.nodecontrol.currentinteraction) nodes
          then some (with_sums 1 m.client nodes sums s)
          else finish_interaction fl env (with_sums 0 m.client nodes sums s))

    pub handle-runs :
        (message ip : String) (client : ClientModel F) (s : FederatedLearning F)
        (ns : List ClientNode) {added : FederatedLearning F}
        → decode message ≡ some client
        → count_interaction ip s.nodecontrol.nodes ≡ some ns
        → add_model fl env client (record s { nodecontrol = record s.nodecontrol { nodes = ns } })
          ≡ some added
        → handle_clint_model_message fl env decode message ip s ≡ (
            if any (is_pending added.nodecontrol.currentinteraction) added.nodecontrol.nodes
            then some (record added { globalmodelstatus = 1 })
            else finish_interaction fl env added)
    unfolding handle_clint_model_message aggregation_model
    handle-runs message ip client s ns decoded counted added =
        rw (decoded, handle_clint_model_message) (rw counted (rw added))

    handle-Handled :
        (m : Sent F) (s : FederatedLearning F)
        → s.nodecontrol.currentinteraction < int_mod
        → Distinct s.nodecontrol.nodes
        → Fits s.nodecontrol.neuralnetwork m
        → mem m.ip (pending s.nodecontrol.currentinteraction s.nodecontrol.nodes) ≡ true
        → Handled m s
    handle-Handled m s small d (decoded, given, fits) awaited =
        let counted =
          count_interaction-Counted s.nodecontrol.currentinteraction m.ip s.nodecontrol.nodes small
            d awaited in
        let s₁ : FederatedLearning F = record s {
          nodecontrol = record s.nodecontrol { nodes = counted.result };
        } in
        let added = add_model-Added fl env x m.client m.network s₁ given fits in
        record {
          nodes = counted.result;
          sums = added.sums;
          awaited = counted.awaited;
          same = counted.same;
          distinct = counted.distinct;
          vector = added.vector;
          keeps = added.keeps;
          runs =
              handle-runs m.message m.ip m.client s counted.result decoded counted.runs added.runs;
        }

    -- Where no address is registered twice, the sums are aggregable, the data set can be opened
    -- and the number of the interaction is an `int`: if the messages come from the nodes that are
    -- awaited, each once and in any order, and each holds a network of the shape of the sums, then
    -- all of them are handled without a fault, and at the end every parameter of the global
    -- network is its sum of parameters times counters, from the sums at the start on, divided by
    -- the sum of the counters; the counter is 0, a model is ready, the nodes are the same and the
    -- interaction is counted.
    pub deliver-Round :
        (ms : List (Sent F)) (m : Sent F) (s : FederatedLearning F) (rows : List (List F))
        → env.rows ≡ some rows
        → s.nodecontrol.currentinteraction < int_mod
        → Distinct s.nodecontrol.nodes
        → IsAggregable s.nodecontrol.neuralnetwork
        → All (Fits s.nodecontrol.neuralnetwork) (m ∷ ms)
        → IsOrder
            (map Sent.ip (m ∷ ms))
            (pending s.nodecontrol.currentinteraction s.nodecontrol.nodes)
        → Round (m ∷ ms) s
    unfolding deliver
    deliver-Round [] m s rows opened small d h (fits, _) (awaited, none_left) =
        let handled = handle-Handled m s small d fits awaited in
        let cur = s.nodecontrol.currentinteraction in
        let s₁ = with_sums 0 m.client handled.nodes handled.sums s in
        let last = any-pending cur handled.nodes (handled.awaited ∙ none_left) in
        let end =
          finish_interaction-Finished fl env x s₁ rows opened
            (IsAggregable-congr x s.nodecontrol.neuralnetwork handled.sums (sym handled.keeps) h) in
        record {
          result = end.result;
          runs = rw (handled.runs, last, end.runs);
          average = rw (← handled.vector) end.average;
          counter = end.counter;
          status = end.status;
          same = ap addresses end.nodes ∙ handled.same;
          current = end.current;
        }
    deliver-Round (m' ∷ ms) m s rows opened small d h (fits, others) (awaited, order) =
        let handled = handle-Handled m s small d fits awaited in
        let cur = s.nodecontrol.currentinteraction in
        let s₁ = with_sums 1 m.client handled.nodes handled.sums s in
        let order' : IsOrder (map Sent.ip (m' ∷ ms)) (pending cur handled.nodes) =
          rw handled.awaited order in
        let more = pending-any cur m'.ip handled.nodes order'.0 in
        let shapes = shape_congr x handled.sums s.nodecontrol.neuralnetwork handled.keeps in
        let rest =
          deliver-Round ms m' s₁ rows opened small handled.distinct
            (IsAggregable-congr x s.nodecontrol.neuralnetwork handled.sums (sym handled.keeps) h)
            (All-mono (Fits s.nodecontrol.neuralnetwork) (Fits handled.sums)
              (λ n f. (f.0, f.1, shapes ∙ f.2)) (m' ∷ ms) others)
            order' in
        record {
          result = rest.result;
          runs = rw (handled.runs, more) rest.runs;
          average = rw (← handled.vector) rest.average;
          counter = rest.counter;
          status = rest.status;
          same = rest.same ∙ handled.same;
          current = rest.current;
        }
