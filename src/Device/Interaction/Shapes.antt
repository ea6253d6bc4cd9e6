-- ===== src/Device/Interaction/Shapes.antt =====
-- What networks of the same shape have in common for JSON.
use mathlib.Core.Path.{subst}
use esp32_fl.Base.{◌≡◌, refl, sym, ap, ap₂, ◌∙◌, List, [], ◌∷◌, map, length-map, All}
use esp32_fl.Network.{Neuron, Layer, NeuralNetwork}
use esp32_fl.Network.Params.{blank_neuron, neuron_shape, layer_shape, shape}
use esp32_fl.Network.Remap.{remap_layer, remap}
use esp32_fl.Json.Received.{WritableNeuron, WritableLayer, IsWritable}

module _ {F : Type 0} (x : F) where
  layer_shape-blank :
      (ns : List (Neuron F))
      → map (λ (n : Neuron F). neuron_shape n) (map (blank_neuron x) ns)
        ≡ map (λ (n : Neuron F). neuron_shape n) ns
  layer_shape-blank [] = refl
  layer_shape-blank (n ∷ ns) = ap₂ ◌∷◌ (length-map n.weight_list (λ _. x)) (layer_shape-blank ns)

  shape-blank_layers :
      (ls : List (Layer F))
      → map (λ (l : Layer F). layer_shape l) (map (remap_layer (blank_neuron x)) ls)
        ≡ map (λ (l : Layer F). layer_shape l) ls
  shape-blank_layers [] = refl
  shape-blank_layers (l ∷ ls) = ap₂ ◌∷◌ (layer_shape-blank l.neuron_list) (shape-blank_layers ls)

  shape-blank : (nn : NeuralNetwork F) → shape (remap (blank_neuron x) nn) ≡ shape nn
  shape-blank nn = shape-blank_layers nn.layer_list

  pub shape_congr :
      (a b : NeuralNetwork F)
      → remap (blank_neuron x) a ≡ remap (blank_neuron x) b
      → shape a ≡ shape b
  shape_congr a b e = sym (shape-blank a) ∙ ap (λ nn. shape nn) e ∙ shape-blank b

  Writable-blank_neurons :
      (ns : List (Neuron F)) → All WritableNeuron (map (blank_neuron x) ns) ≡ All WritableNeuron ns
  Writable-blank_neurons [] = refl
  Writable-blank_neurons (n ∷ ns) = rw (Writable-blank_neurons ns)

  Writable-blank_layers :
      (ls : List (Layer F))
      → All WritableLayer (map (remap_layer (blank_neuron x)) ls) ≡ All WritableLayer ls
  Writable-blank_layers [] = refl
  Writable-blank_layers (l ∷ ls) =
      rw (Writable-blank_neurons l.neuron_list, Writable-blank_layers ls)

  blank-IsWritable : (nn : NeuralNetwork F) → IsWritable nn → IsWritable (remap (blank_neuron x) nn)
  blank-IsWritable nn h = record {
    epoch = h.epoch;
    regularization = h.regularization;
    percentualtraining = h.percentualtraining;
    lossfunctiontype = h.lossfunctiontype;
    layers = h.layers;
    layer_list = rw (Writable-blank_layers nn.layer_list) h.layer_list;
  }

  unblank-IsWritable :
      (nn : NeuralNetwork F) → IsWritable (remap (blank_neuron x) nn) → IsWritable nn
  unblank-IsWritable nn h = record {
    epoch = h.epoch;
    regularization = h.regularization;
    percentualtraining = h.percentualtraining;
    lossfunctiontype = h.lossfunctiontype;
    layers = h.layers;
    layer_list = rw (Writable-blank_layers nn.layer_list) at h.layer_list;
  }

  pub IsWritable-congr :
      (a b : NeuralNetwork F)
      → remap (blank_neuron x) a ≡ remap (blank_neuron x) b
      → IsWritable a
      → IsWritable b
  IsWritable-congr a b e h =
      unblank-IsWritable b (subst (λ nn. IsWritable nn) e (blank-IsWritable a h))
