-- ===== src/Network/Values.antt =====
-- Networks up to the values of their neurons.
use esp32_fl.Base.{
  ◌≡◌, refl, sym, ap, ◌∙◌, ◌==◌, inl, inr, Bool-cases, List, [], ◌∷◌, map, concat_map,
}
use esp32_fl.Float.{FloatArith}
use esp32_fl.Network.{Neuron, Layer, NeuralNetwork}
use esp32_fl.Network.Remap
use esp32_fl.Network.Params.{neuron_params, layer_params, params}
use esp32_fl.Network.Forward.Reference.{
  apply_layer, hidden_layer, output_layer, outputs, forward, IsNetwork,
}

module _ {F : Type 0} (x : F) where
  abbrev pub frozen_neuron : Neuron F → Neuron F
  frozen_neuron n = record n { activationfunctionvalue = x }

  abbrev pub frozen_layer : Layer F → Layer F
  frozen_layer l = record l { neuron_list = map frozen_neuron l.neuron_list }

  -- The network with `x` for every value: all of it that feeding forward leaves alone.
  abbrev pub frozen : NeuralNetwork F → NeuralNetwork F
  frozen nn = record nn { layer_list = map frozen_layer nn.layer_list }

  layer_params-frozen :
      (ns : List (Neuron F))
      → concat_map neuron_params (map frozen_neuron ns) ≡ concat_map neuron_params ns
  layer_params-frozen [] = refl
  layer_params-frozen (n ∷ ns) = rw (layer_params-frozen ns)

  params-frozen_layers :
      (ls : List (Layer F))
      → concat_map layer_params (map frozen_layer ls) ≡ concat_map layer_params ls
  params-frozen_layers [] = refl
  params-frozen_layers (l ∷ ls) = rw (layer_params-frozen l.neuron_list, params-frozen_layers ls)

  pub params-frozen : (nn : NeuralNetwork F) → params (frozen nn) ≡ params nn
  params-frozen nn = params-frozen_layers nn.layer_list

  pub IsNetwork_congr : (a b : NeuralNetwork F) → frozen a ≡ frozen b → IsNetwork a → IsNetwork b
  IsNetwork_congr = Remap.IsNetwork_congr frozen_neuron (λ n. (refl, refl))

  pub params_congr : (a b : NeuralNetwork F) → frozen a ≡ frozen b → params a ≡ params b
  params_congr a b e = sym (params-frozen a) ∙ ap params e ∙ params-frozen b

module _ (fl : FloatArith) where
  open fl use {F}

  apply_layer-frozen :
      (x : F) (act : F → F) (ps ns : List (Neuron F))
      → map (frozen_neuron x) (apply_layer fl act ps ns) ≡ map (frozen_neuron x) ns
  apply_layer-frozen x act ps [] = refl
  apply_layer-frozen x act ps (n ∷ ns) =
      ap (◌∷◌ (frozen_neuron x n)) (apply_layer-frozen x act ps ns)

  output_layer-frozen :
      (x : F) (ps : List (Neuron F)) (l : Layer F)
      → frozen_layer x (output_layer fl ps l) ≡ frozen_layer x l
  output_layer-frozen x ps l = elim (Bool-cases (l.activationfunctiontype == 4)) [
    | inl e ↦ rw (e, apply_layer-frozen)
    | inr e ↦ rw (e, apply_layer-frozen)
  ]

  outputs-frozen :
      (x : F) (ps : List (Neuron F)) (ls : List (Layer F))
      → map (frozen_layer x) (outputs fl ps ls) ≡ map (frozen_layer x) ls
  outputs-frozen x ps [] = refl
  outputs-frozen x ps (l ∷ []) = rw (output_layer-frozen x ps l)
  outputs-frozen x ps (l ∷ m ∷ ls) =
      rw (apply_layer-frozen, outputs-frozen x (hidden_layer fl ps l).neuron_list (m ∷ ls))

  -- Feeding forward changes nothing but values.
  pub forward-frozen :
      (x : F) (nn : NeuralNetwork F)
      → frozen x (record nn { layer_list = forward fl nn.layer_list }) ≡ frozen x nn
  forward-frozen x nn = ap (λ ls. record nn { layer_list = ls }) (go nn.layer_list)
    where
      go : (ls : List (Layer F)) → map (frozen_layer x) (forward fl ls) ≡ map (frozen_layer x) ls
      go [] = refl
      go (l ∷ ls) = rw (outputs-frozen x l.neuron_list ls)
