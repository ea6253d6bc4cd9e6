-- ===== src/Server.antt =====
-- The server's state: `FederatedLearning`, `NodeControl` and `ClientNode` of
-- lib/federatedlearning.h. The one instance is passed from call to call.
pub mod Registry
pub mod Averaging
pub mod Aggregation
pub mod WebSocket
pub mod Buffer
pub mod Start
pub mod Http
pub mod System
pub mod Service
use esp32_fl.Base.{ℕ, String, Option, List}
use esp32_fl.Network.{NeuralNetwork}

-- `ip_id` is the text up to its terminator. The array has 15 bytes; the registration tells where a
-- text does not fit it (`overrun`).
pub record ClientNode : Type 0 where
  pub ip_id : String
  pub interaction : ℕ

-- `nodes` is the chain from `firstclientnode` to `lastclientnode`.
pub record NodeControl (F : Type 0) : Type 0 where
  pub currentinteraction : ℕ
  pub interactioncycle : ℕ
  pub clientnodes : ℕ
  pub clientnodesregistered : ℕ
  pub neuralnetwork : NeuralNetwork F
  pub nodes : List ClientNode

pub record FederatedLearning (F : Type 0) : Type 0 where
  pub globalmodelstatus : ℕ
  pub trainingscounter : ℕ
  pub neuralnetwork : NeuralNetwork F
  pub nodecontrol : NodeControl F

-- A `FederatedLearning` as `JSONToFederatedLearning` returns it for a client's model: its node
-- control is never set, and its network only where the text has one (`none` is a pointer that was
-- not set, to the network or to its first layer). The device's `FederatedLearning` has these fields.
pub record ClientModel (F : Type 0) : Type 0 where
  pub globalmodelstatus : ℕ
  pub trainingscounter : ℕ
  pub neuralnetwork : Option (NeuralNetwork F)
