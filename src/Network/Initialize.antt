-- ===== src/Network/Initialize.antt =====
-- `WeightValue` and `InitializeNeuralNetWork` of the server's federatedlearning.c.
pub mod Fits
use esp32_fl.Base.{
  ℕ, zero, suc, ◌-◌, ◌%◌, String, Option, none, some, List, [], ◌∷◌, ◌==◌, if◌then◌else◌, ◌>>=◌,
  rounds,
}
use esp32_fl.Float.{FloatArith}
use esp32_fl.Network.{Neuron, Layer, NeuralNetwork}

pub record LayerConfig : Type 0 where
  pub neurons : ℕ
  pub activationfunctiontype : ℕ

-- What the C library and the heap contribute: the number that `rand` returns for a weight, by its
-- layer, neuron and place, and what a new neuron holds for the field that is not set.
pub record Memory (F : Type 0) : Type 0 where
  pub rand : ℕ → ℕ → ℕ → ℕ
  pub unset : ℕ → ℕ → F

module _ (fl : FloatArith) where
  open fl use {F, widen, narrow, of_int, div_d, literal}

  -- `drawn` is the result of `rand()`; its remainder by 100 is that of a number that is not
  -- negative.
  unfoldable pub weight_value : ℕ → ℕ → F
  weight_value weightvalue drawn =
      if weightvalue == 0
      then of_int 0
      else if weightvalue == 1
      then narrow (div_d (widen (of_int (drawn % 100))) (literal 1000 1))
      else if weightvalue == 2
      then narrow (literal 5 1)
      else of_int 0

  -- The loops over the weights of a neuron, the neurons of a layer and the layers, each with its
  -- counter and the rounds that are left. A configuration that is shorter than the count is read
  -- through a null pointer.
  unfoldable pub initial_weights : (ℕ → F) → ℕ → ℕ → List F
  initial_weights value k zero = []
  initial_weights value k (suc left) = value k ∷ initial_weights value (suc k) left

  unfoldable pub initial_neuron : Memory F → (weightvalue layers previous i j : ℕ) → Neuron F
  initial_neuron memory weightvalue layers previous i j =
      let weights = if i == 0 then 0 else previous in
      record {
        neurontype = if i == 0 then "INPUT" else if i == layers - 1 then "OUTPUT" else "HIDDEN";
        weights = weights;
        activationfunctionvalue = memory.unset i j;
        bias = of_int 0;
        weight_list =
            initial_weights (λ k. weight_value weightvalue (memory.rand i j k)) 0 (rounds weights);
      }

  unfoldable pub initial_neurons : (ℕ → Neuron F) → ℕ → ℕ → List (Neuron F)
  initial_neurons new j zero = []
  initial_neurons new j (suc left) = new j ∷ initial_neurons new (suc j) left

  unfoldable pub initial_layer :
      Memory F → (weightvalue layers previous i : ℕ) → LayerConfig → Layer F
  initial_layer memory weightvalue layers previous i c = record {
    activationfunctiontype = c.activationfunctiontype;
    neurons = c.neurons;
    neuron_list =
        initial_neurons (initial_neuron memory weightvalue layers previous i) 0 (rounds c.neurons);
  }

  unfoldable pub initial_layers :
      Memory F
      → (weightvalue layers previous i left : ℕ) → List LayerConfig
      → Option (List (Layer F))
  initial_layers memory weightvalue layers previous i zero cs = some []
  initial_layers memory weightvalue layers previous i (suc left) [] = none
  initial_layers memory weightvalue layers previous i (suc left) (c ∷ cs) = do
    ls ← initial_layers memory weightvalue layers c.neurons (suc i) left cs
    some (initial_layer memory weightvalue layers previous i c ∷ ls)

  -- The first layer has no previous one.
  unfoldable pub initialize_neural_net_work :
      Memory F
      → NeuralNetwork F
      → (layers : ℕ) → List LayerConfig
      → (lossfunctiontype weightvalue : ℕ) → Option (NeuralNetwork F)
  initialize_neural_net_work memory nn layers cs lossfunctiontype weightvalue = do
    ls ← initial_layers memory weightvalue layers 0 0 (rounds layers) cs
    some (record nn { layers = layers; lossfunctiontype = lossfunctiontype; layer_list = ls })
