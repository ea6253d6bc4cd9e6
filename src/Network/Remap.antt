-- ===== src/Network/Remap.antt =====
-- Changes of the neurons of a network that leave its counts and the lengths of its chains alone.
use mathlib.Core.Path.{subst}
use esp32_fl.Base.{
  ℕ, ◌≡◌, refl, sym, ap, ◌∙◌, some, List, [], ◌∷◌, map, length, length-map, All, all,
}
use esp32_fl.Network.{Neuron, Layer, NeuralNetwork}
use esp32_fl.Network.Copy.Exact.{copyable_neuron, copyable_layer, copyable}
use esp32_fl.Network.Params.{HasNeurons}
use esp32_fl.Network.Sample.{last_layer}
use esp32_fl.Network.Forward.Reference.{FitsNeuron, FitsLayer, FitsFrom, FitsLayers, IsNetwork}

module _ {F : Type 0} (g : Neuron F → Neuron F) where
  abbrev pub remap_layer : Layer F → Layer F
  remap_layer l = record l { neuron_list = map g l.neuron_list }

  abbrev pub remap : NeuralNetwork F → NeuralNetwork F
  remap nn = record nn { layer_list = map remap_layer nn.layer_list }

  abbrev pub SameCounts : Type 0
  SameCounts =
      (n : Neuron F)
      → ((g n).weights ≡ n.weights) × (length (g n).weight_list ≡ length n.weight_list)

  last_layer-remap :
      (ls : List (Layer F)) (l : Layer F)
      → last_layer ls ≡ some l
      → last_layer (map remap_layer ls) ≡ some (remap_layer l)
  unfolding last_layer
  last_layer-remap [] l e = cc
  last_layer-remap (m ∷ []) l e = cc
  last_layer-remap (m ∷ n ∷ ls) l e = last_layer-remap (n ∷ ls) l e

  HasNeurons-remap : (ls : List (Layer F)) → All HasNeurons (map remap_layer ls) ≡ All HasNeurons ls
  HasNeurons-remap [] = refl
  HasNeurons-remap (l ∷ ls) = rw (length-map l.neuron_list g, HasNeurons-remap ls)

  pub HasNeurons-congr :
      (a b : NeuralNetwork F)
      → remap a ≡ remap b
      → All HasNeurons a.layer_list
      → All HasNeurons b.layer_list
  HasNeurons-congr a b e h =
      let changed : All HasNeurons (remap a).layer_list = rw (HasNeurons-remap a.layer_list) h in
      let other : All HasNeurons (remap b).layer_list =
        subst (λ nn. All HasNeurons (NeuralNetwork.layer_list nn)) e changed in
      rw (HasNeurons-remap b.layer_list) at other

  module _ (same : SameCounts) where
    FitsNeurons-remap :
        (k : ℕ) (ns : List (Neuron F)) → All (FitsNeuron k) (map g ns) ≡ All (FitsNeuron k) ns
    FitsNeurons-remap k [] = refl
    FitsNeurons-remap k (n ∷ ns) = rw ((same n).0, (same n).1, FitsNeurons-remap k ns)

    FitsLayer-remap : (k : ℕ) (l : Layer F) → FitsLayer k (remap_layer l) ≡ FitsLayer k l
    FitsLayer-remap k l = rw (FitsNeurons-remap k l.neuron_list, length-map l.neuron_list g)

    FitsFrom-remap : (k : ℕ) (ls : List (Layer F)) → FitsFrom k (map remap_layer ls) ≡ FitsFrom k ls
    FitsFrom-remap k [] = refl
    FitsFrom-remap k (l ∷ []) = FitsLayer-remap k l
    FitsFrom-remap k (l ∷ m ∷ ls) = rw (
      FitsLayer-remap k l,
      length-map l.neuron_list g,
      FitsFrom-remap (length l.neuron_list) (m ∷ ls),
    )

    FitsLayers-remap :
        (n : ℕ) (ls : List (Layer F)) → FitsLayers n (map remap_layer ls) ≡ FitsLayers n ls
    FitsLayers-remap n [] = refl
    FitsLayers-remap n (l ∷ ls) = rw (
      length-map l.neuron_list g,
      length-map ls remap_layer,
      FitsFrom-remap (length l.neuron_list) ls,
    )

    copyable-remap_neurons :
        (ns : List (Neuron F)) → all copyable_neuron (map g ns) ≡ all copyable_neuron ns
    copyable-remap_neurons [] = refl
    copyable-remap_neurons (n ∷ ns) = rw ((same n).1, copyable-remap_neurons ns)

    copyable-remap_layers :
        (ls : List (Layer F)) → all copyable_layer (map remap_layer ls) ≡ all copyable_layer ls
    copyable-remap_layers [] = refl
    copyable-remap_layers (l ∷ ls) =
        rw (
          copyable-remap_neurons l.neuron_list,
          length-map l.neuron_list g,
          copyable-remap_layers ls,
        )

    copyable-remap : (nn : NeuralNetwork F) → copyable (remap nn) ≡ copyable nn
    copyable-remap nn =
        rw (copyable-remap_layers nn.layer_list, length-map nn.layer_list remap_layer)

    -- Two networks that the change makes equal have the same structure.
    pub IsNetwork_congr : (a b : NeuralNetwork F) → remap a ≡ remap b → IsNetwork a → IsNetwork b
    IsNetwork_congr a b e h =
        let changed : IsNetwork (remap a) = rw (FitsLayers-remap a.layers a.layer_list) h in
        let other : IsNetwork (remap b) = subst (λ nn. IsNetwork nn) e changed in
        rw (FitsLayers-remap b.layers b.layer_list) at other

    pub copyable_congr : (a b : NeuralNetwork F) → remap a ≡ remap b → copyable a ≡ copyable b
    copyable_congr a b e = sym (copyable-remap a) ∙ ap (λ nn. copyable nn) e ∙ copyable-remap b
