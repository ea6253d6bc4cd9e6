-- ===== src/Network.antt =====
-- The neural network of lib/federatedlearning.h. A chain of nodes that are linked by `next`
-- pointers is a list of what its nodes hold (Network/Chain has the pointers).
pub mod Chain
pub mod Free
pub mod Copy
pub mod Params
pub mod Activation
pub mod Forward
pub mod Remap
pub mod Values
pub mod Sample
pub mod Ends
pub mod Metrics
pub mod Initialize
pub mod Loss
use esp32_fl.Base.{ℕ, String, List}

-- `weight_list` is the chain from `firstweight` to `lastweight`, and so in the records below.
pub record Neuron (F : Type 0) : Type 0 where
  pub neurontype : String
  pub weights : ℕ
  pub activationfunctionvalue : F
  pub bias : F
  pub weight_list : List F

pub record Layer (F : Type 0) : Type 0 where
  pub activationfunctiontype : ℕ
  pub neurons : ℕ
  pub neuron_list : List (Neuron F)

pub record NeuralNetwork (F : Type 0) : Type 0 where
  pub epoch : ℕ
  pub alpha : F
  pub regularization : ℕ
  pub lambda : F
  pub percentualtraining : ℕ
  pub lossfunctiontype : ℕ
  pub layers : ℕ
  pub layer_list : List (Layer F)
