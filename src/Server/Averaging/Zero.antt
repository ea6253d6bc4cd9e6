-- ===== src/Server/Averaging/Zero.antt =====
-- What `SetNeuralNetworkZeroWeightValue` clears.
use esp32_fl.Base.{◌≡◌, refl, ap, ap₂, some, List, [], ◌∷◌, map, length, All, traverse}
use esp32_fl.Float.{FloatArith}
use esp32_fl.Network.{Neuron, Layer, NeuralNetwork}
use esp32_fl.Network.Remap.{remap_layer, remap}
use esp32_fl.Network.Params.{HasNeurons, blank_neuron}
use esp32_fl.Server.Averaging.{zero_weights, zero_layer, set_neural_network_zero_weight_value}

module _ (fl : FloatArith) where
  open fl use {F, of_int}

  -- The biases of the neurons of a layer, and its weights.
  abbrev pub biases : Layer F → List F
  biases l = map Neuron.bias l.neuron_list

  abbrev pub weights : Layer F → List (List F)
  weights l = map Neuron.weight_list l.neuron_list

  -- The first entry becomes 0.
  abbrev pub clear_first : List F → List F
  clear_first [] = []
  clear_first (b ∷ bs) = of_int 0 ∷ bs

  abbrev pub clear_all : List F → List F
  clear_all ws = map (λ _. of_int 0) ws

  -- What the function does to the layers of a network.
  abbrev pub Cleared : List (Layer F) → List (Layer F) → Type 0
  Cleared [] [] = Unit
  Cleared [] (m ∷ ms) = ⊥
  Cleared (l ∷ ls) [] = ⊥
  Cleared (l ∷ ls) (m ∷ ms) =
      (biases m ≡ clear_first (biases l)) × (weights m ≡ map clear_all (weights l)) × Cleared ls ms

  biases-zero_weights :
      (ns : List (Neuron F)) → map Neuron.bias (map (zero_weights fl) ns) ≡ map Neuron.bias ns
  unfolding zero_weights
  biases-zero_weights [] = refl
  biases-zero_weights (n ∷ ns) = ap (◌∷◌ n.bias) (biases-zero_weights ns)

  weights-zero_weights :
      (ns : List (Neuron F))
      → map Neuron.weight_list (map (zero_weights fl) ns)
        ≡ map clear_all (map Neuron.weight_list ns)
  unfolding zero_weights
  weights-zero_weights [] = refl
  weights-zero_weights (n ∷ ns) = ap (◌∷◌ (clear_all n.weight_list)) (weights-zero_weights ns)

  blank-clear_all : (x : F) (ws : List F) → map (λ _. x) (clear_all ws) ≡ map (λ _. x) ws
  blank-clear_all x [] = refl
  blank-clear_all x (w ∷ ws) = ap (◌∷◌ x) (blank-clear_all x ws)

  blank-zero_weights :
      (x : F) (ns : List (Neuron F))
      → map (blank_neuron x) (map (zero_weights fl) ns) ≡ map (blank_neuron x) ns
  unfolding zero_weights
  blank-zero_weights x [] = refl
  blank-zero_weights x (n ∷ ns) = rw (blank-clear_all x n.weight_list, blank-zero_weights x ns)

  record ClearedLayer (x : F) (l : Layer F) : Type 0 where
    pub result : Layer F
    pub runs : zero_layer fl l ≡ some result
    pub cleared_biases : biases result ≡ clear_first (biases l)
    pub cleared_weights : weights result ≡ map clear_all (weights l)
    pub keeps : remap_layer (blank_neuron x) result ≡ remap_layer (blank_neuron x) l

  zero_layer-ClearedLayer : (x : F) (l : Layer F) → HasNeurons l → ClearedLayer x l
  unfolding zero_layer zero_weights
  zero_layer-ClearedLayer x l h = go l.neuron_list refl
    where
      go : (ns : List (Neuron F)) → l.neuron_list ≡ ns → ClearedLayer x l
      go [] e = absurd (h (ap length e))
      go (n ∷ ns) e = record {
        result = record l {
          neuron_list = map (zero_weights fl) (record n { bias = of_int 0 } ∷ ns);
        };
        runs = rw (e, zero_layer);
        cleared_biases = rw (e, biases-zero_weights ns);
        cleared_weights = rw (e, weights-zero_weights ns);
        keeps = rw (e, blank-clear_all x n.weight_list, blank-zero_weights x ns);
      }

  record ClearedLayers (x : F) (ls : List (Layer F)) : Type 0 where
    pub result : List (Layer F)
    pub runs : traverse (zero_layer fl) ls ≡ some result
    pub cleared : Cleared ls result
    pub keeps : map (remap_layer (blank_neuron x)) result ≡ map (remap_layer (blank_neuron x)) ls

  zero_layers-ClearedLayers : (x : F) (ls : List (Layer F)) → All HasNeurons ls → ClearedLayers x ls
  zero_layers-ClearedLayers x [] h = record { result = []; runs = refl; cleared = tt; keeps = refl }
  zero_layers-ClearedLayers x (l ∷ ls) (h, hs) =
      let one = zero_layer-ClearedLayer x l h in
      let rest = zero_layers-ClearedLayers x ls hs in
      record {
        result = one.result ∷ rest.result;
        runs = rw (one.runs, rest.runs);
        cleared = (one.cleared_biases, one.cleared_weights, rest.cleared);
        keeps = ap₂ ◌∷◌ one.keeps rest.keeps;
      }

  -- The outcome of clearing a network.
  pub record IsCleared (x : F) (nn : NeuralNetwork F) : Type 0 where
    pub result : NeuralNetwork F
    pub runs : set_neural_network_zero_weight_value fl nn ≡ some result
    pub cleared : Cleared nn.layer_list result.layer_list
    pub keeps : remap (blank_neuron x) result ≡ remap (blank_neuron x) nn

  -- Where every layer has a neuron the function runs through. It clears every weight, but of the
  -- biases only that of the first neuron of each layer: the others keep their value.
  pub set_neural_network_zero_weight_value-IsCleared :
      (x : F) (nn : NeuralNetwork F) → All HasNeurons nn.layer_list → IsCleared x nn
  unfolding set_neural_network_zero_weight_value
  set_neural_network_zero_weight_value-IsCleared x nn h =
      let all = zero_layers-ClearedLayers x nn.layer_list h in
      record {
        result = record nn { layer_list = all.result };
        runs = rw all.runs;
        cleared = all.cleared;
        keeps = ap (λ ls. record nn { layer_list = ls }) all.keeps;
      }
