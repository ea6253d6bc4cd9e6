-- ===== src/Json/Reader.antt =====
-- `JSONToFederatedLearning` of the server's JSONConverter.c. The device's copy differs in that it
-- reads the activation function of a layer as well, which `reads_type` tells.
use esp32_fl.Base.{
  ℕ, suc, String, Bool, Option, none, some, List, [], ◌∷◌, map, length, ltb, if◌then◌else◌, ◌>>=◌,
}
use esp32_fl.Float.{FloatArith}
use esp32_fl.Network.{Neuron, Layer, NeuralNetwork}
use esp32_fl.Server.{ClientModel}
use esp32_fl.Json.{Cjson, codes}

-- What new memory holds for the fields that are not set, by layer and neuron; and what a reader
-- meets in `neurontype` behind 20 characters without a terminator.
pub record NewMemory (F : Type 0) : Type 0 where
  pub network : NeuralNetwork F
  pub layer : ℕ → Layer F
  pub neuron : ℕ → ℕ → Neuron F
  pub unterminated : String → String

module _ (fl : FloatArith) (json : Cjson (FloatArith.D fl)) (reads_type : Bool)
    (memory : NewMemory (FloatArith.F fl)) where
  open fl use {F, narrow}
  open json use {
    Json, get_object_item, array_items, is_object, is_array, is_number, is_string, valueint,
    valuedouble, valuestring,
  }

  -- A field keeps what it holds where the item is missing or of another kind.
  unfoldable pub read_int : Option Json → ℕ → ℕ
  read_int none old = old
  read_int (some item) old = if is_number item then valueint item else old

  unfoldable pub read_float : Option Json → F → F
  read_float none old = old
  read_float (some item) old = if is_number item then narrow (valuedouble item) else old

  -- `strncpy` of at most 20 characters.
  unfoldable pub read_text : Option Json → String → String
  read_text none old = old
  read_text (some item) old =
      if is_string item
      then (if ltb (length (codes (valuestring item))) 20
          then valuestring item
          else memory.unterminated (valuestring item))
      else old

  -- The elements, if there is an array.
  unfoldable pub read_array : Option Json → List Json
  read_array none = []
  read_array (some item) = if is_array item then array_items item else []

  unfoldable pub read_weight : Json → F
  read_weight item = narrow (valuedouble item)

  unfoldable pub read_neuron : Neuron F → Json → Neuron F
  read_neuron old item = record {
    neurontype = read_text (get_object_item item "neurontype") old.neurontype;
    weights = read_int (get_object_item item "weights") old.weights;
    activationfunctionvalue = old.activationfunctionvalue;
    bias = read_float (get_object_item item "bias") old.bias;
    weight_list = map read_weight (read_array (get_object_item item "weightsArray"));
  }

  unfoldable pub read_neurons : (ℕ → Neuron F) → ℕ → List Json → List (Neuron F)
  read_neurons old j [] = []
  read_neurons old j (item ∷ items) = read_neuron (old j) item ∷ read_neurons old (suc j) items

  unfoldable pub read_layer : ℕ → Json → Layer F
  read_layer i item =
      let old = memory.layer i in
      record {
        activationfunctiontype =
            if reads_type
            then read_int (get_object_item item "activationfunctiontype") old.activationfunctiontype
            else old.activationfunctiontype;
        neurons = read_int (get_object_item item "neurons") old.neurons;
        neuron_list =
            read_neurons (memory.neuron i) 0 (read_array (get_object_item item "neuronsArray"));
      }

  unfoldable pub read_layers : ℕ → List Json → List (Layer F)
  read_layers i [] = []
  read_layers i (item ∷ items) = read_layer i item ∷ read_layers (suc i) items

  -- `firstlayer` is set only if there are a number of layers and an array; `none` is a network
  -- without it, or no network: every use of it goes through a pointer that was never set.
  unfoldable pub read_neural_network : Option Json → Option (NeuralNetwork F)
  read_neural_network none = none
  read_neural_network (some item) =
      let old = memory.network in
      if is_object item
      then (do
        layers ← get_object_item item "layers"
        layers_array ← get_object_item item "layersArray"
        if is_number layers
            then (if is_array layers_array
                then some (record {
                  epoch = read_int (get_object_item item "epoch") old.epoch;
                  alpha = read_float (get_object_item item "alpha") old.alpha;
                  regularization =
                      read_int (get_object_item item "regularization") old.regularization;
                  lambda = read_float (get_object_item item "lambda") old.lambda;
                  percentualtraining =
                      read_int (get_object_item item "percentualtraining") old.percentualtraining;
                  lossfunctiontype =
                      read_int (get_object_item item "lossfunctiontype") old.lossfunctiontype;
                  layers = valueint layers;
                  layer_list = read_layers 0 (array_items layers_array);
                })
                else none)
            else none)
      else none

  -- `none` where the text is no JSON, or no object.
  unfoldable pub json_to_federated_learning : Option Json → Option (ClientModel F)
  json_to_federated_learning none = none
  json_to_federated_learning (some item) =
      if is_object item
      then some (record {
        globalmodelstatus = read_int (get_object_item item "globalmodelstatus") 0;
        trainingscounter = read_int (get_object_item item "trainingscounter") 0;
        neuralnetwork = read_neural_network (get_object_item item "neuralnetwork");
      })
      else none
