-- ===== src/Network/Copy.antt =====
-- `CopyWeight`, `CopyNeuron`, `CopyLayer` and `CopyNeuralNetwork` of the server's
-- federatedlearning.c. The result is what a reader of the copy meets: `none` where one of its
-- chains has no end.
pub mod Exact
use esp32_fl.Base.{Option, some, List, ◌>>=◌, traverse}
use esp32_fl.Network.{Neuron, Layer, NeuralNetwork}
use esp32_fl.Network.Chain.{read_chain, build_copy}

-- A loop that copies each node of a chain and appends the copy.
copy_chain : {A : Type 0} → (A → Option A) → List A → Option (List A)
copy_chain f xs = do ys ← traverse f xs; read_chain (build_copy ys)

module _ {F : Type 0} where
  -- The links of the new node are its caller's business.
  copy_weight : F → Option F
  copy_weight w = some w

  copy_neuron : Neuron F → Option (Neuron F)
  copy_neuron n = do
    ws ← copy_chain copy_weight n.weight_list
    some (record {
      neurontype = n.neurontype;
      weights = n.weights;
      activationfunctionvalue = n.activationfunctionvalue;
      bias = n.bias;
      weight_list = ws;
    })

  copy_layer : Layer F → Option (Layer F)
  copy_layer l = do
    ns ← copy_chain copy_neuron l.neuron_list
    some (record {
      activationfunctiontype = l.activationfunctiontype;
      neurons = l.neurons;
      neuron_list = ns;
    })

  pub copy_neural_network : NeuralNetwork F → Option (NeuralNetwork F)
  copy_neural_network nn = do
    ls ← copy_chain copy_layer nn.layer_list
    some (record {
      epoch = nn.epoch;
      alpha = nn.alpha;
      regularization = nn.regularization;
      lambda = nn.lambda;
      percentualtraining = nn.percentualtraining;
      lossfunctiontype = nn.lossfunctiontype;
      layers = nn.layers;
      layer_list = ls;
    })
