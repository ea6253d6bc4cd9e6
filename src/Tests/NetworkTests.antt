-- ===== src/Tests/NetworkTests.antt =====
-- The network's operations at concrete inputs.
use esp32_fl.Base.{map, ℕ, ◌≡◌, refl, some, List, [], ◌∷◌, arith}
use esp32_fl.Network.{Neuron, Layer, NeuralNetwork}
use esp32_fl.Network.Chain.{build_copy, read_chain}
use esp32_fl.Network.Chain.Built.{read_chain-several}
use esp32_fl.Network.Copy.{copy_neural_network}
use esp32_fl.Network.Copy.Exact.{copy_neural_network-exact}
use esp32_fl.Network.Forward.{feed_foward}
use esp32_fl.Network.Forward.Reference.{IsNetwork, forward}
use esp32_fl.Network.Forward.Correct.{feed_foward-forward}
use esp32_fl.Network.Metrics.{sample_size}
use esp32_fl.Network.Metrics.Runs.{Measured, performance_metrics-Measured}
use esp32_fl.Network.Sample.{last_layer}
use esp32_fl.Network.Loss.{loss_function_calculation}
use esp32_fl.Network.Loss.Reference.{loss, loss_function_calculation_lem}
use esp32_fl.Tests.Samples.{softmax_layer, natural_arith, network, evaluation}

pub network-IsNetwork : (b : ℕ) → IsNetwork (network b)
network-IsNetwork b = (
  refl,
  refl,
  (
    (refl, ((refl, refl), ((refl, refl), ((refl, refl), tt)))),
    (λ e. omega (arith, e)),
    (refl, ((refl, refl), ((refl, refl), ((refl, refl), tt)))),
  ),
)

pub network-sized : (b : ℕ) → sample_size (network b) ≡ some 7
unfolding sample_size esp32_fl.Network.Sample.last_layer
network-sized b = refl

feed_foward-forward_example :
    feed_foward natural_arith (network 0)
    ≡ some (record (network 0) { layer_list = forward natural_arith (network 0).layer_list })
feed_foward-forward_example = feed_foward-forward natural_arith (network 0) (network-IsNetwork 0)

performance_metrics-Measured_example : Measured natural_arith 0 evaluation (network 0) 30
performance_metrics-Measured_example =
    performance_metrics-Measured natural_arith 0 evaluation (network 0) 30 7 _ refl
      (network-IsNetwork 0) (network-sized 0) (omega arith) (omega arith)

copy_neural_network-exact_example : copy_neural_network (network 0) ≡ some (network 0)
copy_neural_network-exact_example = copy_neural_network-exact (network 0)

abbrev two_values : List ℕ
two_values = 4 ∷ 7 ∷ []

read_chain-several_example : read_chain (build_copy two_values) ≡ some two_values
read_chain-several_example = read_chain-several two_values

network-last : last_layer (network 0).layer_list ≡ some (softmax_layer 0)
unfolding last_layer
network-last = refl

loss_function_calculation_lem_example :
    loss_function_calculation natural_arith (network 0) (1 ∷ 0 ∷ 0 ∷ []) 2 3
    ≡ some (
        loss natural_arith
          (network 0)
          (1 ∷ 0 ∷ 0 ∷ [])
          (map Neuron.activationfunctionvalue (softmax_layer 0).neuron_list)
          2
          3)
loss_function_calculation_lem_example =
    loss_function_calculation_lem natural_arith (network 0) (1 ∷ 0 ∷ 0 ∷ []) (softmax_layer 0) 2 3
      network-last refl refl
