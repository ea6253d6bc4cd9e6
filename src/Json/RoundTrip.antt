-- ===== src/Json/RoundTrip.antt =====
-- What is read of a model that was written.
use esp32_fl.Base.{
  ℕ, suc, ◌<◌, ◌≡◌, refl, ap, ap₂, ◌∙◌, Bool, some, List, [], ◌∷◌, map, if◌then◌else◌, All, int_mod,
}
use esp32_fl.Float.{FloatArith}
use esp32_fl.Network.{Neuron, Layer, NeuralNetwork}
use esp32_fl.Json.{Cjson, IsLawful}
use esp32_fl.Json.Objects.{get-object_of, is_object-object_of, items-array_of, is_array-array_of}
use esp32_fl.Json.Writer.{
  neuron_items, layer_items, neural_network_items, model_items, float_to_json, neuron_to_json,
  layer_to_json, neural_network_to_json, model_to_json,
}
use esp32_fl.Json.Reader.{
  NewMemory, read_weight, read_neuron, read_neurons, read_layer, read_layers, read_neural_network,
  json_to_federated_learning,
}
use esp32_fl.Json.Received.{
  WritableNeuron, WritableLayer, IsWritable, received_neuron, received_neurons, received_layer,
  received_layers, received,
}
use esp32_fl.Json.Fields

module _ (fl : FloatArith) (json : Cjson (FloatArith.D fl)) (lawful : IsLawful fl json)
    (reads_type : Bool) (memory : NewMemory (FloatArith.F fl)) where
  open fl use {F}
  open json use {Json, get_object_item}

  read_neuron-to_json :
      (old n : Neuron F)
      → WritableNeuron n
      → read_neuron fl json reads_type memory old (neuron_to_json fl json n)
        ≡ received_neuron reads_type memory old n
  unfolding read_neuron neuron_to_json
  read_neuron-to_json old n (h, k) = λ i. record {
    neurontype =
        Fields.field_text fl json lawful reads_type memory (neuron_items fl json n) "neurontype"
          n.neurontype old.neurontype refl k i;
    weights =
        Fields.field_int fl json lawful reads_type memory (neuron_items fl json n) "weights"
          n.weights old.weights refl h i;
    activationfunctionvalue = old.activationfunctionvalue;
    bias =
        Fields.field_float fl json lawful reads_type memory (neuron_items fl json n) "bias" n.bias
          old.bias refl i;
    weight_list =
        (ap (map (read_weight fl json reads_type memory)) (
              Fields.field_array fl json lawful reads_type memory (neuron_items fl json n)
                "weightsArray" (float_to_json fl json) n.weight_list refl)
            ∙ Fields.read_weights-to_json fl json lawful reads_type memory n.weight_list)
          i;
  }

  read_neurons-to_json :
      (old : ℕ → Neuron F) (j : ℕ) (ns : List (Neuron F))
      → All WritableNeuron ns
      → read_neurons fl json reads_type memory old j (map (neuron_to_json fl json) ns)
        ≡ received_neurons reads_type memory old j ns
  unfolding read_neurons
  read_neurons-to_json old j [] h = refl
  read_neurons-to_json old j (n ∷ ns) (h, hs) =
      ap₂ ◌∷◌ (read_neuron-to_json (old j) n h) (read_neurons-to_json old (suc j) ns hs)

  read_layer-to_json :
      (i : ℕ) (l : Layer F)
      → WritableLayer l
      → read_layer fl json reads_type memory i (layer_to_json fl json l)
        ≡ received_layer reads_type memory i l
  unfolding read_layer layer_to_json
  read_layer-to_json i l (h, k, hs) = λ t. record {
    activationfunctiontype =
        if reads_type
        then Fields.field_int fl json lawful reads_type memory (layer_items fl json l)
            "activationfunctiontype" l.activationfunctiontype
            (memory.layer i).activationfunctiontype refl k t
        else (memory.layer i).activationfunctiontype;
    neurons =
        Fields.field_int fl json lawful reads_type memory (layer_items fl json l) "neurons"
          l.neurons (memory.layer i).neurons refl h t;
    neuron_list =
        (ap (read_neurons fl json reads_type memory (memory.neuron i) 0) (
              Fields.field_array fl json lawful reads_type memory (layer_items fl json l)
                "neuronsArray" (neuron_to_json fl json) l.neuron_list refl)
            ∙ read_neurons-to_json (memory.neuron i) 0 l.neuron_list hs)
          t;
  }

  read_layers-to_json :
      (i : ℕ) (ls : List (Layer F))
      → All WritableLayer ls
      → read_layers fl json reads_type memory i (map (layer_to_json fl json) ls)
        ≡ received_layers reads_type memory i ls
  unfolding read_layers
  read_layers-to_json i [] h = refl
  read_layers-to_json i (l ∷ ls) (h, hs) =
      ap₂ ◌∷◌ (read_layer-to_json i l h) (read_layers-to_json (suc i) ls hs)

  read_neural_network-to_json :
      (nn : NeuralNetwork F)
      → IsWritable nn
      → read_neural_network fl json reads_type memory (some (neural_network_to_json fl json nn))
        ≡ some (received reads_type memory nn)
  unfolding read_neural_network neural_network_to_json
  read_neural_network-to_json nn w =
      let items = neural_network_items fl json nn in
      let old = memory.network in
      rw
        (
          is_object-object_of fl json lawful items,
          get-object_of fl json lawful items "layers",
          get-object_of fl json lawful items "layersArray",
          Fields.is_number-int_to_json fl json lawful reads_type memory nn.layers,
          is_array-array_of fl json lawful (layer_to_json fl json) nn.layer_list,
        )
        λ i. some (record {
          epoch =
              Fields.field_int fl json lawful reads_type memory items "epoch" nn.epoch old.epoch
                refl w.epoch i;
          alpha =
              Fields.field_float fl json lawful reads_type memory items "alpha" nn.alpha old.alpha
                refl i;
          regularization =
              Fields.field_int fl json lawful reads_type memory items "regularization"
                nn.regularization old.regularization refl w.regularization i;
          lambda =
              Fields.field_float fl json lawful reads_type memory items "lambda" nn.lambda
                old.lambda refl i;
          percentualtraining =
              Fields.field_int fl json lawful reads_type memory items "percentualtraining"
                nn.percentualtraining old.percentualtraining refl w.percentualtraining i;
          lossfunctiontype =
              Fields.field_int fl json lawful reads_type memory items "lossfunctiontype"
                nn.lossfunctiontype old.lossfunctiontype refl w.lossfunctiontype i;
          layers =
              Fields.valueint-int_to_json fl json lawful reads_type memory nn.layers w.layers i;
          layer_list =
              (ap (read_layers fl json reads_type memory 0)
                    (items-array_of fl json lawful (layer_to_json fl json) nn.layer_list)
                  ∙ read_layers-to_json 0 nn.layer_list w.layer_list)
                i;
        })

  -- A model that is written and read again arrives: status, counter and network, the latter but
  -- for the values of its neurons, and but for the activation functions of its layers where the
  -- reader leaves them out. Status and counter are `int`s, and the network can be written: its
  -- counts are `int`s and its neurons' kinds fit their array.
  pub read-model_to_json :
      (status counter : ℕ) (nn : NeuralNetwork F)
      → status < int_mod
      → counter < int_mod
      → IsWritable nn
      → json_to_federated_learning fl json reads_type memory
          (some (model_to_json fl json status counter nn))
        ≡ some (record {
          globalmodelstatus = status;
          trainingscounter = counter;
          neuralnetwork = some (received reads_type memory nn);
        })
  unfolding json_to_federated_learning model_to_json
  read-model_to_json status counter nn h k w =
      let items = model_items fl json status counter nn in
      rw (is_object-object_of fl json lawful items) λ i. some (record {
        globalmodelstatus =
            Fields.field_int fl json lawful reads_type memory items "globalmodelstatus" status 0
              refl h i;
        trainingscounter =
            Fields.field_int fl json lawful reads_type memory items "trainingscounter" counter 0
              refl k i;
        neuralnetwork =
            (ap (read_neural_network fl json reads_type memory)
                  (get-object_of fl json lawful items "neuralnetwork")
                ∙ read_neural_network-to_json nn w)
              i;
      })
