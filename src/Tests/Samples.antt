-- ===== src/Tests/Samples.antt =====
-- A small network, a server around it, and an arithmetic that computes.
use esp32_fl.Base.{
  ℕ, ◌+◌, ◌-◌, ◌*◌, ◌/◌, String, Option, none, some, List, [], ◌∷◌, ltb, leb, ◌==◌, str_eq,
  if◌then◌else◌,
}
use esp32_fl.Float.{FloatArith}
use esp32_fl.Network.{Neuron, Layer, NeuralNetwork}
use esp32_fl.Network.Metrics.{Evaluation}
use esp32_fl.Server.{ClientNode, NodeControl, FederatedLearning, ClientModel}

-- Natural numbers in place of floating-point ones.
abbrev pub natural_arith : FloatArith
natural_arith = record {
  F = ℕ;
  D = ℕ;
  widen = λ x. x;
  narrow = λ x. x;
  of_int = λ x. x;
  of_int_d = λ x. x;
  add = ◌+◌;
  mul = ◌*◌;
  div = ◌/◌;
  neg = λ x. 0 - x;
  gt = λ x y. ltb y x;
  ge = λ x y. leb y x;
  eq = ◌==◌;
  add_d = ◌+◌;
  mul_d = ◌*◌;
  div_d = ◌/◌;
  one_d = 1;
  literal = λ m k. m;
  neg_d = λ x. 0 - x;
  exp = λ x. x + 1;
  log = λ x. x;
}

abbrev pub neuron : ℕ → ℕ → ℕ → List ℕ → Neuron ℕ
neuron k a b ws = record {
  neurontype = "Perceptron";
  weights = k;
  activationfunctionvalue = a;
  bias = b;
  weight_list = ws;
}

abbrev pub input_layer : Layer ℕ
input_layer = record {
  activationfunctiontype = 1;
  neurons = 4;
  neuron_list = neuron 0 2 0 [] ∷ neuron 0 1 0 [] ∷ neuron 0 0 0 [] ∷ neuron 0 3 0 [] ∷ [];
}

abbrev pub relu_layer : ℕ → Layer ℕ
relu_layer b = record {
  activationfunctiontype = 2;
  neurons = 3;
  neuron_list =
      neuron 4 0 b (1 ∷ 2 ∷ 3 ∷ 4 ∷ [])
      ∷ neuron 4 0 1 (0 ∷ 1 ∷ 0 ∷ 1 ∷ [])
      ∷ neuron 4 0 2 (5 ∷ 0 ∷ 0 ∷ 0 ∷ [])
      ∷ [];
}

abbrev pub softmax_layer : ℕ → Layer ℕ
softmax_layer b = record {
  activationfunctiontype = 4;
  neurons = 3;
  neuron_list =
      neuron 3 0 b (1 ∷ 0 ∷ 0 ∷ [])
      ∷ neuron 3 0 0 (0 ∷ 1 ∷ 0 ∷ [])
      ∷ neuron 3 0 0 (0 ∷ 0 ∷ 1 ∷ [])
      ∷ [];
}

abbrev pub network : ℕ → NeuralNetwork ℕ
network b = record {
  epoch = 1;
  alpha = 1;
  regularization = 0;
  lambda = 1;
  percentualtraining = 70;
  lossfunctiontype = 4;
  layers = 3;
  layer_list = input_layer ∷ relu_layer b ∷ softmax_layer b ∷ [];
}

-- A data set of two rows, and an array that holds its places.
abbrev pub evaluation : Evaluation ℕ
evaluation = record {
  rows = some ((1 ∷ 2 ∷ 3 ∷ 4 ∷ 1 ∷ 0 ∷ 0 ∷ []) ∷ (4 ∷ 3 ∷ 2 ∷ 1 ∷ 0 ∷ 1 ∷ 0 ∷ []) ∷ []);
  stack = λ i. i;
}

abbrev pub client_model : ℕ → ClientModel ℕ
client_model b = record {
  globalmodelstatus = 0;
  trainingscounter = 2;
  neuralnetwork = some (network b);
}

-- Two texts that are models, and no other.
abbrev pub decode : String → Option (ClientModel ℕ)
decode text =
    if str_eq text "first"
    then some (client_model 3)
    else if str_eq text "second"
    then some (client_model 5)
    else none

abbrev pub nodes : List ClientNode
nodes =
    record { ip_id = "10.0.0.1"; interaction = 0 }
    ∷ record { ip_id = "10.0.0.2"; interaction = 0 }
    ∷ []

abbrev pub control : ℕ → NodeControl ℕ
control places = record {
  currentinteraction = 0;
  interactioncycle = 5;
  clientnodes = places;
  clientnodesregistered = 2;
  neuralnetwork = network 0;
  nodes = nodes;
}

abbrev pub server : ℕ → FederatedLearning ℕ
server places = record {
  globalmodelstatus = 1;
  trainingscounter = 0;
  neuralnetwork = network 0;
  nodecontrol = control places;
}
