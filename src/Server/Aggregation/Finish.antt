-- ===== src/Server/Aggregation/Finish.antt =====
-- The two halves of `AggregationModel`: a model is added to the sums, and an interaction ends.
use esp32_fl.Base.{
  ℕ, ◌≡◌, refl, sym, ◌∙◌, ◌≤◌, true, some, List, map, All, zip_with, length-map, arith, add_int,
}
use esp32_fl.Float.{FloatArith}
use esp32_fl.Network.{NeuralNetwork}
use esp32_fl.Network.Params.{params, shape, blank_neuron, HasNeurons}
use esp32_fl.Network.Remap
use esp32_fl.Network.Remap.{remap}
use esp32_fl.Network.Values.{params_congr}
use esp32_fl.Network.Ends.{count_io, count_io_congr}
use esp32_fl.Network.Copy.Exact.{copyable, copy_neural_network-exact}
use esp32_fl.Network.Forward.Reference.{IsNetwork}
use esp32_fl.Network.Metrics.{Evaluation, sample_size}
use esp32_fl.Network.Metrics.Size.{sample_size_congr}
use esp32_fl.Network.Metrics.Runs.{performance_metrics-Measured}
use esp32_fl.Server.{FederatedLearning, ClientModel}
use esp32_fl.Server.Averaging.{add_weighted, divide, federated_averaging}
use esp32_fl.Server.Averaging.Vector.{federated_averaging_sum-Step}
use esp32_fl.Server.Averaging.Mean.{params-federated_averaging, blank-federated_averaging}
use esp32_fl.Server.Averaging.Zero.{Cleared, set_neural_network_zero_weight_value-IsCleared}
use esp32_fl.Server.Aggregation.{add_model, finish_interaction}

-- A network for which the end of an interaction is defined: it is well formed, none of its chains
-- has exactly one node, every layer has a neuron, and a row of the data set fits the array.
pub record IsAggregable {F : Type 0} (nn : NeuralNetwork F) : Type 0 where
  pub network : IsNetwork nn
  pub several : copyable nn ≡ true
  pub neurons : All HasNeurons nn.layer_list
  pub size : ℕ
  pub sized : sample_size nn ≡ some size
  pub room : count_io nn ≤ size
  pub wide : 7 ≤ size

pub IsAggregable-congr :
    {F : Type 0} (x : F) (a b : NeuralNetwork F)
    → remap (blank_neuron x) a ≡ remap (blank_neuron x) b
    → IsAggregable a
    → IsAggregable b
IsAggregable-congr x a b e h =
    let g = blank_neuron x in
    record {
      network =
          Remap.IsNetwork_congr g (λ n. (refl, length-map n.weight_list (λ _. x))) a b e h.network;
      several =
          sym (Remap.copyable_congr g (λ n. (refl, length-map n.weight_list (λ _. x))) a b e)
          ∙ h.several;
      neurons = Remap.HasNeurons-congr g a b e h.neurons;
      size = h.size;
      sized = sym (sample_size_congr g a b e) ∙ h.sized;
      room = omega (arith, h.room, count_io_congr g a b e);
      wide = h.wide;
    }

module _ (fl : FloatArith) (env : Evaluation (FloatArith.F fl)) (x : FloatArith.F fl) where
  open fl use {F}

  pub record Added (client : ClientModel F) (c : NeuralNetwork F) (s : FederatedLearning F)
      : Type 0 where
    pub sums : NeuralNetwork F
    pub runs :
        add_model fl env client s
        ≡ some (record s {
          globalmodelstatus = 0;
          trainingscounter = add_int s.trainingscounter client.trainingscounter;
          nodecontrol = record s.nodecontrol { neuralnetwork = sums };
        })
    pub vector :
        params sums
        ≡ zip_with
            (add_weighted fl client.trainingscounter)
            (params s.nodecontrol.neuralnetwork)
            (params c)
    pub keeps : remap (blank_neuron x) sums ≡ remap (blank_neuron x) s.nodecontrol.neuralnetwork

  pub add_model-Added :
      (client : ClientModel F) (c : NeuralNetwork F) (s : FederatedLearning F)
      → client.neuralnetwork ≡ some c
      → shape s.nodecontrol.neuralnetwork ≡ shape c
      → Added client c s
  unfolding add_model
  add_model-Added client c s given same =
      let sum =
        federated_averaging_sum-Step fl x client.trainingscounter s.nodecontrol.neuralnetwork c
          same in
      record {
        sums = sum.result;
        runs = rw (given, sum.runs);
        vector = sum.vector;
        keeps = sum.keeps;
      }

  -- What stands behind the last model of an interaction.
  pub record Finished (s : FederatedLearning F) : Type 0 where
    pub result : FederatedLearning F
    pub runs : finish_interaction fl env s ≡ some result
    pub average :
        params result.neuralnetwork
        ≡ map (divide fl s.trainingscounter) (params s.nodecontrol.neuralnetwork)
    pub counter : result.trainingscounter ≡ 0
    pub status : result.globalmodelstatus ≡ 1
    pub nodes : result.nodecontrol.nodes ≡ s.nodecontrol.nodes
    pub current : result.nodecontrol.currentinteraction ≡ add_int s.nodecontrol.currentinteraction 1
    pub cleared :
        Cleared fl
          (federated_averaging fl s.nodecontrol.neuralnetwork s.trainingscounter).layer_list
          result.nodecontrol.neuralnetwork.layer_list
    pub keeps :
        remap (blank_neuron x) result.nodecontrol.neuralnetwork
        ≡ remap (blank_neuron x) s.nodecontrol.neuralnetwork

  -- Where the sums are aggregable and the data set can be opened, the end of an interaction has no
  -- fault: the global network has each parameter of the sums divided by the counter, the counter
  -- is 0, a model is ready, the interaction is counted, and the nodes stay. The sums keep their
  -- shape; their weights and the first bias of each layer become 0, and the other biases are the
  -- averaged ones.
  pub finish_interaction-Finished :
      (s : FederatedLearning F) (rows : List (List F))
      → env.rows ≡ some rows
      → IsAggregable s.nodecontrol.neuralnetwork
      → Finished s
  unfolding finish_interaction
  finish_interaction-Finished s rows opened h =
      let sums = s.nodecontrol.neuralnetwork in
      let t = s.trainingscounter in
      let averaged = federated_averaging fl sums t in
      let blank = blank-federated_averaging fl t x sums in
      let ok = IsAggregable-congr x sums averaged (sym blank) h in
      let zeroed = set_neural_network_zero_weight_value-IsCleared fl x averaged ok.neurons in
      let measured =
        performance_metrics-Measured fl x env averaged 30 ok.size rows opened ok.network ok.sized
          ok.room ok.wide in
      record {
        result = record {
          globalmodelstatus = 1;
          trainingscounter = 0;
          neuralnetwork = measured.nn';
          nodecontrol = record s.nodecontrol {
            neuralnetwork = zeroed.result;
            currentinteraction = add_int s.nodecontrol.currentinteraction 1;
          };
        };
        runs = rw (copy_neural_network-exact averaged, ok.several, zeroed.runs, measured.runs);
        average =
            params_congr x measured.nn' averaged measured.same
            ∙ params-federated_averaging fl t sums;
        counter = refl;
        status = refl;
        nodes = refl;
        current = refl;
        cleared = zeroed.cleared;
        keeps = zeroed.keeps ∙ blank;
      }
