-- ===== src/Server/Start.antt =====
-- `getFederatedLearningInstance` and `setFederatedLearningGlobalModel` of the server's
-- federatedlearning.c: the state in which the server starts.
pub mod Ready
pub mod First
use esp32_fl.Base.{ℕ, Option, none, some, List, [], ◌∷◌, ◌>>=◌}
use esp32_fl.Float.{FloatArith}
use esp32_fl.Network.{NeuralNetwork}
use esp32_fl.Network.Initialize.{LayerConfig, Memory, initialize_neural_net_work}
use esp32_fl.Server.{NodeControl, FederatedLearning}

-- The fields that the first call of `getFederatedLearningInstance` does not set.
pub record Unset (F : Type 0) : Type 0 where
  pub clientnodesregistered : ℕ
  pub interactioncycle : ℕ
  pub clientnodes : ℕ
  pub neuralnetwork : NeuralNetwork F
  pub control_network : NeuralNetwork F

module _ {F : Type 0} where
  unfoldable pub new_instance : Unset F → FederatedLearning F
  new_instance unset = record {
    globalmodelstatus = 0;
    trainingscounter = 0;
    neuralnetwork = unset.neuralnetwork;
    nodecontrol = record {
      currentinteraction = 0;
      interactioncycle = unset.interactioncycle;
      clientnodes = unset.clientnodes;
      clientnodesregistered = unset.clientnodesregistered;
      neuralnetwork = unset.control_network;
      nodes = [];
    };
  }

  -- The static instance, which is made at the first call.
  pub get_federated_learning_instance : Unset F → Option (FederatedLearning F) → FederatedLearning F
  unfolding new_instance
  get_federated_learning_instance unset none = new_instance unset
  get_federated_learning_instance unset (some s) = s

abbrev pub layer_configs : List LayerConfig
layer_configs =
    record { neurons = 4; activationfunctiontype = 0 }
    ∷ record { neurons = 3; activationfunctiontype = 2 }
    ∷ record { neurons = 3; activationfunctiontype = 2 }
    ∷ record { neurons = 3; activationfunctiontype = 4 }
    ∷ []

module _ (fl : FloatArith) where
  open fl use {F, narrow, literal}

  -- The settings of trainingConfigs.h.
  unfoldable pub configure : NeuralNetwork F → NeuralNetwork F
  configure nn = record nn {
    alpha = narrow (literal 1 3);
    epoch = 20;
    regularization = 2;
    lambda = narrow (literal 1 2);
    percentualtraining = 40;
  }

  -- `first` and `second` are what the heap and `rand` contribute to the two networks.
  unfoldable pub set_federated_learning_global_model :
      (first second : Memory F) → FederatedLearning F → Option (FederatedLearning F)
  set_federated_learning_global_model first second s = do
    global ← initialize_neural_net_work fl first s.neuralnetwork 4 layer_configs 2 1
    sums ← initialize_neural_net_work fl second s.nodecontrol.neuralnetwork 4 layer_configs 2 0
    some (record s {
      globalmodelstatus = 1;
      neuralnetwork = configure global;
      nodecontrol = record s.nodecontrol {
        interactioncycle = 10;
        clientnodes = 3;
        neuralnetwork = configure sums;
      };
    })
