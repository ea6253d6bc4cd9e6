-- ===== src/Json/Transfer.antt =====
-- What the way through JSON leaves of a network: its parameters and its shape, and where the layers'
-- activation functions are read, all but the values of its neurons.
use esp32_fl.Base.{ℕ, suc, ◌≡◌, refl, ap, ap₂, Bool, true, List, [], ◌∷◌, ◌++◌, map}
use esp32_fl.Network.{Neuron, Layer, NeuralNetwork}
use esp32_fl.Network.Params
use esp32_fl.Network.Params.{neuron_params, layer_params, params, layer_shape, shape}
use esp32_fl.Network.Values.{frozen_neuron, frozen_layer, frozen}
use esp32_fl.Json.Reader.{NewMemory}
use esp32_fl.Json.Received.{received_neurons, received_layers, received}
use esp32_fl.Base.{concat_map}

module _ {F : Type 0} (memory : NewMemory F) where
  module _ (reads_type : Bool) where
    params-received_neurons :
        (old : ℕ → Neuron F) (j : ℕ) (ns : List (Neuron F))
        → concat_map neuron_params (received_neurons reads_type memory old j ns)
          ≡ concat_map neuron_params ns
    params-received_neurons old j [] = refl
    params-received_neurons old j (n ∷ ns) =
        ap (λ ps. neuron_params n ++ ps) (params-received_neurons old (suc j) ns)

    shape-received_neurons :
        (old : ℕ → Neuron F) (j : ℕ) (ns : List (Neuron F))
        → map (λ n. Params.neuron_shape n) (received_neurons reads_type memory old j ns)
          ≡ map (λ n. Params.neuron_shape n) ns
    shape-received_neurons old j [] = refl
    shape-received_neurons old j (n ∷ ns) =
        ap (◌∷◌ (Params.neuron_shape n)) (shape-received_neurons old (suc j) ns)

    params-received_layers :
        (i : ℕ) (ls : List (Layer F))
        → concat_map layer_params (received_layers reads_type memory i ls)
          ≡ concat_map layer_params ls
    params-received_layers i [] = refl
    params-received_layers i (l ∷ ls) =
        ap₂ ◌++◌ (params-received_neurons (memory.neuron i) 0 l.neuron_list)
          (params-received_layers (suc i) ls)

    shape-received_layers :
        (i : ℕ) (ls : List (Layer F))
        → map layer_shape (received_layers reads_type memory i ls) ≡ map layer_shape ls
    shape-received_layers i [] = refl
    shape-received_layers i (l ∷ ls) =
        ap₂ ◌∷◌ (shape-received_neurons (memory.neuron i) 0 l.neuron_list)
          (shape-received_layers (suc i) ls)

    pub params-received :
        (nn : NeuralNetwork F) → params (received reads_type memory nn) ≡ params nn
    params-received nn = params-received_layers 0 nn.layer_list

    pub shape-received : (nn : NeuralNetwork F) → shape (received reads_type memory nn) ≡ shape nn
    shape-received nn = shape-received_layers 0 nn.layer_list

  module _ (x : F) where
    frozen-received_neurons :
        (old : ℕ → Neuron F) (j : ℕ) (ns : List (Neuron F))
        → map (frozen_neuron x) (received_neurons true memory old j ns) ≡ map (frozen_neuron x) ns
    frozen-received_neurons old j [] = refl
    frozen-received_neurons old j (n ∷ ns) =
        ap (◌∷◌ (frozen_neuron x n)) (frozen-received_neurons old (suc j) ns)

    frozen-received_layers :
        (i : ℕ) (ls : List (Layer F))
        → map (frozen_layer x) (received_layers true memory i ls) ≡ map (frozen_layer x) ls
    frozen-received_layers i [] = refl
    frozen-received_layers i (l ∷ ls) =
        ap₂ ◌∷◌
          (ap (λ ns. record l { neuron_list = ns })
            (frozen-received_neurons (memory.neuron i) 0 l.neuron_list))
          (frozen-received_layers (suc i) ls)

    pub frozen-received : (nn : NeuralNetwork F) → frozen x (received true memory nn) ≡ frozen x nn
    frozen-received nn =
        ap (λ ls. record nn { layer_list = ls }) (frozen-received_layers 0 nn.layer_list)
