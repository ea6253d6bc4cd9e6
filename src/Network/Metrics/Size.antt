-- ===== src/Network/Metrics/Size.antt =====
-- The length of the sample array depends on the counts of the first and the last layer alone.
use esp32_fl.Base.{ℕ, ◌≡◌, refl, sym, ap, ◌∙◌, some, List, [], ◌∷◌, map, ◌>>=◌, rounds, add_int}
use esp32_fl.Network.{Neuron, Layer, NeuralNetwork}
use esp32_fl.Network.Sample.{last_layer}
use esp32_fl.Network.Remap.{remap_layer, remap}
use esp32_fl.Network.Metrics.{array_size, sample_size}

module _ {F : Type 0} (g : Neuron F → Neuron F) where
  last_layer-counts :
      (k : ℕ) (ls : List (Layer F))
      → (do last ← last_layer (map (remap_layer g) ls); some (rounds (add_int k last.neurons)))
        ≡ (do last ← last_layer ls; some (rounds (add_int k last.neurons)))
  unfolding last_layer
  last_layer-counts k [] = refl
  last_layer-counts k (l ∷ []) = refl
  last_layer-counts k (l ∷ m ∷ ls) = last_layer-counts k (m ∷ ls)

  array_size-remap : (ls : List (Layer F)) → array_size (map (remap_layer g) ls) ≡ array_size ls
  unfolding array_size
  array_size-remap [] = refl
  array_size-remap (l ∷ ls) = last_layer-counts l.neurons (l ∷ ls)

  sample_size-remap : (nn : NeuralNetwork F) → sample_size (remap g nn) ≡ sample_size nn
  unfolding sample_size
  sample_size-remap nn = array_size-remap nn.layer_list

  pub sample_size_congr :
      (a b : NeuralNetwork F) → remap g a ≡ remap g b → sample_size a ≡ sample_size b
  sample_size_congr a b e = sym (sample_size-remap a) ∙ ap sample_size e ∙ sample_size-remap b
