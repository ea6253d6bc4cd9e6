-- ===== src/Tests/StartTests.antt =====
-- The start of the server at a concrete input.
use esp32_fl.Base.{
  ℕ, ◌+◌, String, ◌≡◌, refl, Option, none, some, List, [], ◌∷◌, arith, str_eq, if◌then◌else◌,
}
use esp32_fl.Network.{Layer, NeuralNetwork}
use esp32_fl.Network.Forward.Reference.{IsNetwork}
use esp32_fl.Network.Initialize.{
  Memory, weight_value, initialize_neural_net_work, initial_weights, initial_neuron,
  initial_neurons, initial_layer, initial_layers, LayerConfig,
}
use esp32_fl.Network.Initialize.Fits.{initialize-IsNetwork}
use esp32_fl.Server.{FederatedLearning, ClientModel}
use esp32_fl.Server.Registry.Arrivals.{first_arrivals}
use esp32_fl.Server.Registry.Requests.{arrive}
use esp32_fl.Server.Aggregation.Round.{Sent}
use esp32_fl.Server.Start.{Unset, new_instance, configure, set_federated_learning_global_model}
use esp32_fl.Server.Start.Ready.{Started, set_federated_learning_global_model-Started}
use esp32_fl.Server.Start.First.{FirstRound, first_interaction}
use esp32_fl.Tests.Samples.{
  natural_arith, network, input_layer, relu_layer, softmax_layer, evaluation, server,
}

abbrev memory : Memory ℕ
memory = record { rand = λ i j k. i + j + k; unset = λ i j. 9 }

abbrev unset : Unset ℕ
unset = record {
  clientnodesregistered = 0;
  interactioncycle = 77;
  clientnodes = 77;
  neuralnetwork = network 1;
  control_network = network 2;
}

abbrev started : FederatedLearning ℕ
started =
    elim (set_federated_learning_global_model natural_arith memory memory (new_instance unset)) [
      | some s ↦ s
      | none ↦ server 3
    ]

abbrev middle_layer : Layer ℕ
middle_layer = record (softmax_layer 1) { activationfunctiontype = 2 }

abbrev trained : ℕ → NeuralNetwork ℕ
trained b = record (network b) {
  layers = 4;
  layer_list = input_layer ∷ relu_layer b ∷ middle_layer ∷ softmax_layer b ∷ [];
}

abbrev model : ℕ → ClientModel ℕ
model b = record { globalmodelstatus = 0; trainingscounter = b; neuralnetwork = some (trained b) }

abbrev decode_model : String → Option (ClientModel ℕ)
decode_model text =
    if str_eq text "one"
    then some (model 1)
    else if str_eq text "two"
    then some (model 2)
    else if str_eq text "three"
    then some (model 3)
    else none

abbrev sent : String → String → ℕ → Sent ℕ
sent ip message b = record { ip = ip; message = message; client = model b; network = trained b }

first_interaction_example :
    FirstRound natural_arith evaluation decode_model memory memory 0
      (arrive ("10.0.0.4" ∷ "10.0.0.5" ∷ "10.0.0.4" ∷ "10.0.0.6" ∷ "10.0.0.7" ∷ []) started)
      (sent "10.0.0.5" "two" 2 ∷ sent "10.0.0.6" "three" 3 ∷ sent "10.0.0.4" "one" 1 ∷ [])
unfolding set_federated_learning_global_model new_instance configure initialize_neural_net_work
    weight_value initial_weights initial_neuron initial_neurons initial_layer initial_layers
    first_arrivals
first_interaction_example =
    first_interaction natural_arith evaluation decode_model memory memory 0 unset
      ("10.0.0.4" ∷ "10.0.0.5" ∷ "10.0.0.4" ∷ "10.0.0.6" ∷ "10.0.0.7" ∷ [])
      (sent "10.0.0.5" "two" 2) (sent "10.0.0.6" "three" 3 ∷ sent "10.0.0.4" "one" 1 ∷ []) _ started
      refl refl refl ((refl, refl, refl), ((refl, refl, refl), ((refl, refl, refl), tt)))
      (refl, (refl, (refl, refl)))

set_federated_learning_global_model-Started_example : Started natural_arith memory memory unset
set_federated_learning_global_model-Started_example =
    set_federated_learning_global_model-Started natural_arith memory memory unset

-- A network with one hidden layer, with weights of one half.
abbrev small_configs : List LayerConfig
small_configs =
    record { neurons = 2; activationfunctiontype = 1 }
    ∷ record { neurons = 3; activationfunctiontype = 3 }
    ∷ record { neurons = 2; activationfunctiontype = 4 }
    ∷ []

initialize-IsNetwork_example :
    (nn' : NeuralNetwork ℕ) × (initialize_neural_net_work natural_arith memory
        (network 1)
        3
        small_configs
        2
        2
      ≡ some nn')
    × IsNetwork nn'
initialize-IsNetwork_example =
    initialize-IsNetwork natural_arith memory 2 3 (network 1) _ _ 2 refl
      ((λ e. omega (arith, e)), tt)
