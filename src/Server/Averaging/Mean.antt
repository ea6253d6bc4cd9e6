-- ===== src/Server/Averaging/Mean.antt =====
-- `FederatedAveraging` on the parameter vector, and the shape of a network.
use mathlib.Core.List.{map-append}
use esp32_fl.Base.{ℕ, ◌≡◌, refl, sym, ap, ◌∙◌, List, [], ◌∷◌, map, length-map, concat_map}
use esp32_fl.Float.{FloatArith}
use esp32_fl.Network.{Neuron, Layer, NeuralNetwork}
use esp32_fl.Network.Remap.{remap_layer, remap}
use esp32_fl.Network.Params.{
  neuron_params, layer_params, params, neuron_shape, layer_shape, shape, blank_neuron,
}
use esp32_fl.Server.Averaging.{divide, average_neuron, average_layer, federated_averaging}

module _ {F : Type 0} (x : F) where
  layer_shape-blank :
      (ns : List (Neuron F)) → map neuron_shape (map (blank_neuron x) ns) ≡ map neuron_shape ns
  layer_shape-blank [] = refl
  layer_shape-blank (n ∷ ns) = rw (length-map n.weight_list (λ (_ : F). x), layer_shape-blank ns)

  shape-blank :
      (ls : List (Layer F))
      → map layer_shape (map (remap_layer (blank_neuron x)) ls) ≡ map layer_shape ls
  shape-blank [] = refl
  shape-blank (l ∷ ls) = rw (layer_shape-blank l.neuron_list, shape-blank ls)

  pub shape_congr :
      (a b : NeuralNetwork F)
      → remap (blank_neuron x) a ≡ remap (blank_neuron x) b
      → shape a ≡ shape b
  shape_congr a b e =
      sym (shape-blank a.layer_list) ∙ ap (λ nn. shape nn) e ∙ shape-blank b.layer_list

module _ (fl : FloatArith) (t : ℕ) where
  open fl use {F}

  layer_params-average :
      (ns : List (Neuron F))
      → concat_map neuron_params (map (average_neuron fl t) ns)
        ≡ map (divide fl t) (concat_map neuron_params ns)
  unfolding average_neuron
  layer_params-average [] = refl
  layer_params-average (n ∷ ns) = rw (
    map-append (divide fl t) n.weight_list (concat_map neuron_params ns),
    layer_params-average ns,
  )

  layers-average :
      (ls : List (Layer F))
      → concat_map layer_params (map (average_layer fl t) ls)
        ≡ map (divide fl t) (concat_map layer_params ls)
  unfolding average_layer
  layers-average [] = refl
  layers-average (l ∷ ls) = rw (
    map-append (divide fl t) (layer_params l) (concat_map layer_params ls),
    layer_params-average l.neuron_list,
    layers-average ls,
  )

  -- `FederatedAveraging` divides every bias and every weight of the network by the counter, once
  -- each and in place.
  pub params-federated_averaging :
      (nn : NeuralNetwork F) → params (federated_averaging fl nn t) ≡ map (divide fl t) (params nn)
  unfolding federated_averaging
  params-federated_averaging nn = layers-average nn.layer_list

  module _ (x : F) where
    blank-weights : (f : F → F) (ws : List F) → map (λ _. x) (map f ws) ≡ map (λ _. x) ws
    blank-weights f [] = refl
    blank-weights f (w ∷ ws) = ap (◌∷◌ x) (blank-weights f ws)

    blank-average_neurons :
        (ns : List (Neuron F))
        → map (blank_neuron x) (map (average_neuron fl t) ns) ≡ map (blank_neuron x) ns
    unfolding average_neuron
    blank-average_neurons [] = refl
    blank-average_neurons (n ∷ ns) =
        rw (blank-weights (divide fl t) n.weight_list, blank-average_neurons ns)

    blank-average_layers :
        (ls : List (Layer F))
        → map (remap_layer (blank_neuron x)) (map (average_layer fl t) ls)
          ≡ map (remap_layer (blank_neuron x)) ls
    unfolding average_layer
    blank-average_layers [] = refl
    blank-average_layers (l ∷ ls) =
        rw (blank-average_neurons l.neuron_list, blank-average_layers ls)

    pub blank-federated_averaging :
        (nn : NeuralNetwork F)
        → remap (blank_neuron x) (federated_averaging fl nn t) ≡ remap (blank_neuron x) nn
    unfolding federated_averaging
    blank-federated_averaging nn = rw (blank-average_layers nn.layer_list)
