-- ===== src/Json/Received.antt =====
-- What can be written, and what arrives of it.
use esp32_fl.Base.{ℕ, suc, ◌<◌, Bool, List, [], ◌∷◌, length, if◌then◌else◌, All, int_mod}
use esp32_fl.Network.{Neuron, Layer, NeuralNetwork}
use esp32_fl.Json.{codes}
use esp32_fl.Json.Reader.{NewMemory}

-- What the numbers and texts of a network have to be for the way through JSON to keep them: `int`s,
-- and kinds of neurons that fit their array.
module _ {F : Type 0} where
  abbrev pub WritableNeuron : Neuron F → Type 0
  WritableNeuron n = (n.weights < int_mod) × (length (codes n.neurontype) < 20)

  abbrev pub WritableLayer : Layer F → Type 0
  WritableLayer l =
      (l.neurons < int_mod)
      × (l.activationfunctiontype < int_mod)
      × All WritableNeuron l.neuron_list

  pub record IsWritable (nn : NeuralNetwork F) : Type 0 where
    pub epoch : nn.epoch < int_mod
    pub regularization : nn.regularization < int_mod
    pub percentualtraining : nn.percentualtraining < int_mod
    pub lossfunctiontype : nn.lossfunctiontype < int_mod
    pub layers : nn.layers < int_mod
    pub layer_list : All WritableLayer nn.layer_list

-- What arrives of a network: all of it, but for the values of the neurons, and for the activation
-- functions of the layers where the reader does not read them.
module _ {F : Type 0} (reads_type : Bool) (memory : NewMemory F) where
  abbrev pub received_neuron : Neuron F → Neuron F → Neuron F
  received_neuron old n = record n { activationfunctionvalue = old.activationfunctionvalue }

  abbrev pub received_neurons : (ℕ → Neuron F) → ℕ → List (Neuron F) → List (Neuron F)
  received_neurons old j [] = []
  received_neurons old j (n ∷ ns) = received_neuron (old j) n ∷ received_neurons old (suc j) ns

  abbrev pub received_layer : ℕ → Layer F → Layer F
  received_layer i l = record {
    activationfunctiontype =
        if reads_type then l.activationfunctiontype else (memory.layer i).activationfunctiontype;
    neurons = l.neurons;
    neuron_list = received_neurons (memory.neuron i) 0 l.neuron_list;
  }

  abbrev pub received_layers : ℕ → List (Layer F) → List (Layer F)
  received_layers i [] = []
  received_layers i (l ∷ ls) = received_layer i l ∷ received_layers (suc i) ls

  abbrev pub received : NeuralNetwork F → NeuralNetwork F
  received nn = record nn { layer_list = received_layers 0 nn.layer_list }
