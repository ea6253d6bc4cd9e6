-- ===== src/Device/Functions.antt =====
-- The functions that the device's federatedlearning.c and JSONConverter.c have in the words of the
-- server's. The device's `FederatedLearning` has the three fields of a `ClientModel`.
use esp32_fl.Base.{ℕ, Option, none, some, List, true}
use esp32_fl.Float.{FloatArith}
use esp32_fl.Network.{Layer, NeuralNetwork}
use esp32_fl.Network.Chain.{Ptr}
use esp32_fl.Network.Free.{Heap, free_layers}
use esp32_fl.Network.Activation
use esp32_fl.Network.Forward
use esp32_fl.Network.Loss
use esp32_fl.Network.Metrics
use esp32_fl.Network.Metrics.{Evaluation, Counts}
use esp32_fl.Server.{ClientModel}
use esp32_fl.Json.{Cjson}
use esp32_fl.Json.Writer.{model_to_json}
use esp32_fl.Json.Reader
use esp32_fl.Json.Reader.{NewMemory}

-- The network is passed by value, from its first layer on, and not freed itself.
abbrev pub free_neural_network : ℕ → Ptr → Heap → Option Heap
free_neural_network = free_layers

module _ (fl : FloatArith) where
  open fl use {F, of_int, add, mul, div, neg}

  abbrev pub perceptron : F → F
  perceptron = Activation.perceptron fl

  abbrev pub re_lu : F → F
  re_lu = Activation.re_lu fl

  abbrev pub sigmoid : F → F
  sigmoid = Activation.sigmoid fl

  abbrev pub soft_max : F → F → F
  soft_max = Activation.soft_max fl

  abbrev pub categorical_cross_entropy : List F → List F → ℕ → Option F
  categorical_cross_entropy = Loss.categorical_cross_entropy fl

  -- Three functions that nothing calls.
  pub soft_max_derivative1 : F → F
  soft_max_derivative1 a = mul a (add (of_int 1) (neg a))

  pub soft_max_derivative2 : F → F → F
  soft_max_derivative2 a1 a2 = mul a1 a2

  pub categorical_cross_entropy_derivative : F → F → F
  categorical_cross_entropy_derivative y a = neg (div y a)

  abbrev pub activation_function_calculaton : List (Layer F) → F → ℕ → Option F
  activation_function_calculaton = Activation.activation_function_calculaton fl

  abbrev pub feed_foward : NeuralNetwork F → Option (NeuralNetwork F)
  feed_foward = Forward.feed_foward fl

  abbrev pub ridge_regression_calculation : NeuralNetwork F → F → F
  ridge_regression_calculation = Loss.ridge_regression_calculation fl

  abbrev pub lasso_regression_calculation : NeuralNetwork F → F → F
  lasso_regression_calculation = Loss.lasso_regression_calculation fl

  abbrev pub loss_function_calculation : NeuralNetwork F → List F → ℕ → F → Option F
  loss_function_calculation = Loss.loss_function_calculation fl

  -- The rows are those of the device's data set.
  abbrev pub performance_metrics :
      Evaluation F → NeuralNetwork F → ℕ → Option (NeuralNetwork F × Counts)
  performance_metrics = Metrics.performance_metrics fl

  module _ (json : Cjson (FloatArith.D fl)) where
    open json use {Json}

    -- `none` is a network that was never set.
    unfoldable pub federated_learning_to_json : ClientModel F → Option Json
    federated_learning_to_json s = elim s.neuralnetwork [
      | none ↦ none
      | some nn ↦ some (model_to_json fl json s.globalmodelstatus s.trainingscounter nn)
    ]

    abbrev pub json_to_federated_learning : NewMemory F → Option Json → Option (ClientModel F)
    json_to_federated_learning memory = Reader.json_to_federated_learning fl json true memory
