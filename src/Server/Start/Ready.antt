-- ===== src/Server/Start/Ready.antt =====
-- The state in which the server starts.
use esp32_fl.Base.{ℕ, zero, suc, ◌≡◌, refl, ◌≢◌, some, List, [], ◌∷◌, arith}
use esp32_fl.Float.{FloatArith}
use esp32_fl.Network.{NeuralNetwork}
use esp32_fl.Network.Params.{params}
use esp32_fl.Network.Sample
use esp32_fl.Network.Metrics.{sample_size}
use esp32_fl.Network.Initialize.{
  Memory, weight_value, initialize_neural_net_work, initial_weights, initial_neuron,
  initial_neurons, initial_layer, initial_layers,
}
use esp32_fl.Server.{FederatedLearning}
use esp32_fl.Server.Registry.Valid.{IsValid}
use esp32_fl.Server.Aggregation.Finish.{IsAggregable}
use esp32_fl.Server.Start.{
  Unset, new_instance, layer_configs, configure, set_federated_learning_global_model,
}

abbrev pub repeat : {A : Type 0} → ℕ → A → List A
repeat zero a = []
repeat (suc n) a = a ∷ repeat n a

not_zero : (n : ℕ) → suc n ≢ 0
not_zero n e = omega (arith, e)

module _ (fl : FloatArith) where
  open fl use {F, of_int}

  -- A network of the configured sizes.
  record Configured (memory : Memory F) (nn : NeuralNetwork F) (weightvalue : ℕ) : Type 0 where
    pub result : NeuralNetwork F
    pub runs : initialize_neural_net_work fl memory nn 4 layer_configs 2 weightvalue ≡ some result
    pub aggregable : IsAggregable (configure fl result)
    pub zeros : weightvalue ≡ 0 → params (configure fl result) ≡ repeat 43 (of_int 0)

  configured :
      (memory : Memory F) (nn : NeuralNetwork F) (weightvalue : ℕ)
      → Configured memory nn weightvalue
  unfolding initialize_neural_net_work configure weight_value initial_weights initial_neuron
      initial_neurons initial_layer initial_layers sample_size Sample.last_layer
  configured memory nn weightvalue = record {
    result = _;
    runs = refl;
    aggregable = record {
      network = (
        refl,
        refl,
        (
          (refl, ((refl, refl), ((refl, refl), ((refl, refl), tt)))),
          (λ e. omega (arith, e)),
          (
            (refl, ((refl, refl), ((refl, refl), ((refl, refl), tt)))),
            (λ e. omega (arith, e)),
            (refl, ((refl, refl), ((refl, refl), ((refl, refl), tt)))),
          ),
        ),
      );
      several = refl;
      neurons = (not_zero 3, (not_zero 2, (not_zero 2, (not_zero 2, tt))));
      size = 7;
      sized = refl;
      room = omega arith;
      wide = omega arith;
    };
    zeros = λ e. rw e refl;
  }

  -- What the server starts with: networks that can be averaged, sums that are all 0, no node, and
  -- three places.
  pub record IsStart (unset : Unset F) (s : FederatedLearning F) : Type 0 where
    pub network : IsAggregable s.neuralnetwork
    pub aggregable : IsAggregable s.nodecontrol.neuralnetwork
    pub zeros : params s.nodecontrol.neuralnetwork ≡ repeat 43 (of_int 0)
    pub nodes : s.nodecontrol.nodes ≡ []
    pub places : s.nodecontrol.clientnodes ≡ 3
    pub current : s.nodecontrol.currentinteraction ≡ 0
    pub counter : s.trainingscounter ≡ 0
    pub valid : unset.clientnodesregistered ≡ 0 → IsValid s.nodecontrol

  module _ (first second : Memory F) where
    pub record Started (unset : Unset F) : Type 0 where
      pub result : FederatedLearning F
      pub runs :
          set_federated_learning_global_model fl first second (new_instance unset) ≡ some result
      pub starts : IsStart unset result

    -- Whatever the heap and `rand` contribute, the server starts, with two networks of the
    -- configured sizes that are well formed and that can be copied and evaluated; the sums are all
    -- 0, no node is registered, and the registry is well formed if the count of nodes, which is
    -- not set, happens to be 0.
    pub set_federated_learning_global_model-Started : (unset : Unset F) → Started unset
    unfolding set_federated_learning_global_model new_instance
    set_federated_learning_global_model-Started unset =
        let global = configured first unset.neuralnetwork 1 in
        let sums = configured second unset.control_network 0 in
        let s = new_instance unset in
        record {
          result = record s {
            globalmodelstatus = 1;
            neuralnetwork = configure fl global.result;
            nodecontrol = record s.nodecontrol {
              interactioncycle = 10;
              clientnodes = 3;
              neuralnetwork = configure fl sums.result;
            };
          };
          runs = rw (global.runs, sums.runs);
          starts = record {
            network = global.aggregable;
            aggregable = sums.aggregable;
            zeros = sums.zeros refl;
            nodes = refl;
            places = refl;
            current = refl;
            counter = refl;
            valid = λ e. record {
              distinct = tt;
              counted = e;
              within = omega arith;
              fits = omega arith;
            };
          };
        }
