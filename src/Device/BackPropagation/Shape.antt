-- ===== src/Device/BackPropagation/Shape.antt =====
-- Training changes numbers alone: counts and chains stay as they are.
use mathlib.Core.Path.{subst}
use esp32_fl.Base.{
  ℕ, ◌≡◌, refl, sym, ap, ap₂, ◌∙◌, some, List, [], ◌∷◌, ◌++◌, append-nil, map, arith, zip_with,
  length, length-map, All,
}
use esp32_fl.Float.{FloatArith}
use esp32_fl.Network.{Neuron, Layer, NeuralNetwork}
use esp32_fl.Network.Params.{blank_neuron}
use esp32_fl.Network.Remap.{remap_layer, remap}
use esp32_fl.Network.Sample.{last_layer}
use esp32_fl.Network.Forward.Reference.{FitsNeuron, IsNetwork}
use esp32_fl.Device.BackPropagation.{from_last}
use esp32_fl.Device.BackPropagation.Reference.{
  trained_neuron, trained_layer, deltas_from, train_hidden, train_back, trained, FitsBack,
  SameHidden, SameBefore, Labelled,
}
use esp32_fl.Device.BackPropagation.Rounds.{length-deltas_from, length-last_deltas}
use esp32_fl.Device.BackPropagation.Correct.{FitsLayers-back}

from_last-map :
    {A B : Type 0} (f : A → B) (xs done : List A)
    → map f (from_last xs done) ≡ from_last (map f xs) (map f done)
unfolding from_last
from_last-map f [] done = refl
from_last-map f (x ∷ xs) done = from_last-map f xs (x ∷ done)

from_last-twice :
    {A : Type 0} (xs done ys : List A)
    → from_last (from_last xs done) ys ≡ from_last done (xs ++ ys)
unfolding from_last
from_last-twice [] done ys = refl
from_last-twice (x ∷ xs) done ys = from_last-twice xs (x ∷ done) ys

from_last-back : {A : Type 0} (xs : List A) → from_last (from_last xs []) [] ≡ xs
unfolding from_last
from_last-back xs = from_last-twice xs [] [] ∙ append-nil xs

module _ {F : Type 0} (g : Neuron F → Neuron F) where
  SameHidden-remap : (ls : List (Layer F)) → SameHidden (map (remap_layer g) ls) ≡ SameHidden ls
  SameHidden-remap [] = refl
  SameHidden-remap (l ∷ []) = refl
  SameHidden-remap (l ∷ m ∷ []) = refl
  SameHidden-remap (l ∷ m ∷ k ∷ ls) =
      rw (length-map l.neuron_list g, length-map m.neuron_list g, SameHidden-remap (m ∷ k ∷ ls))

  SameBefore-remap : (ls : List (Layer F)) → SameBefore (map (remap_layer g) ls) ≡ SameBefore ls
  SameBefore-remap [] = refl
  SameBefore-remap (l ∷ ls) = SameHidden-remap ls

  SameBefore-back :
      (ls : List (Layer F))
      → SameBefore (from_last (map (remap_layer g) ls) []) ≡ SameBefore (from_last ls [])
  SameBefore-back ls =
      ap (λ z. SameBefore z) (sym (from_last-map (remap_layer g) ls []))
      ∙ SameBefore-remap (from_last ls [])

  pub SameBefore-congr :
      (a b : NeuralNetwork F)
      → remap g a ≡ remap g b
      → SameBefore (from_last a.layer_list [])
      → SameBefore (from_last b.layer_list [])
  SameBefore-congr a b e h =
      let changed : SameBefore (from_last (remap g a).layer_list []) =
        rw (SameBefore-back a.layer_list) h in
      let other : SameBefore (from_last (remap g b).layer_list []) =
        subst (λ nn. SameBefore (from_last (NeuralNetwork.layer_list nn) [])) e changed in
      rw (SameBefore-back b.layer_list) at other

module _ {F : Type 0} where
  Labelled-from_last :
      (labels : List F) (l last : Layer F) (ls done : List (Layer F))
      → last_layer (l ∷ ls) ≡ some last
      → length labels ≡ length last.neuron_list
      → Labelled labels (from_last ls (l ∷ done))
  unfolding last_layer from_last
  Labelled-from_last labels l last [] done e h = h ∙ cc
  Labelled-from_last labels l last (m ∷ ls) done e h =
      Labelled-from_last labels m last ls (l ∷ done) e h

  pub Labelled-last :
      (labels : List F) (last : Layer F) (ls : List (Layer F))
      → last_layer ls ≡ some last
      → length labels ≡ length last.neuron_list
      → Labelled labels (from_last ls [])
  unfolding last_layer from_last
  Labelled-last labels last [] e h = cc
  Labelled-last labels last (l ∷ ls) e h = Labelled-from_last labels l last ls [] e h

  blank_weights :
      {A : Type 0} (x : F) (f : F → A → F) (ws : List F) (ps : List A)
      → length ws ≡ length ps
      → map (λ (_ : F). x) (zip_with f ws ps) ≡ map (λ _. x) ws
  blank_weights x f [] ps e = refl
  blank_weights x f (w ∷ ws) [] e = absurd (omega arith)
  blank_weights x f (w ∷ ws) (p ∷ ps) e = ap (◌∷◌ x) (blank_weights x f ws ps (omega arith))

module _ (fl : FloatArith) (alpha : FloatArith.F fl) (regularization : ℕ) (lambda : FloatArith.F fl)
    (x : FloatArith.F fl) where
  open fl use {F}

  blank_neurons :
      (ps : List (Neuron F)) (deltas : List F) (ns : List (Neuron F))
      → length deltas ≡ length ns
      → All (FitsNeuron (length ps)) ns
      → map (blank_neuron x) (zip_with (trained_neuron fl alpha regularization lambda ps) deltas ns)
        ≡ map (blank_neuron x) ns
  blank_neurons ps [] [] e h = refl
  blank_neurons ps [] (n ∷ ns) e h = absurd (omega arith)
  blank_neurons ps (d ∷ deltas) [] e h = absurd (omega arith)
  blank_neurons ps (d ∷ deltas) (n ∷ ns) e (h, hs) =
      ap₂ (λ ws rest. record n { activationfunctionvalue = x; bias = x; weight_list = ws } ∷ rest)
        (blank_weights x _ n.weight_list ps h.1) (blank_neurons ps deltas ns (omega arith) hs)

  blank_layer :
      (ps : List (Neuron F)) (deltas : List F) (l : Layer F)
      → length deltas ≡ length l.neuron_list
      → All (FitsNeuron (length ps)) l.neuron_list
      → remap_layer (blank_neuron x) (trained_layer fl alpha regularization lambda ps deltas l)
        ≡ remap_layer (blank_neuron x) l
  blank_layer ps deltas l e h =
      ap (λ ns. record l { neuron_list = ns }) (blank_neurons ps deltas l.neuron_list e h)

  blank_hidden :
      (deltas : List F) (behind : List (Neuron F)) (ls : List (Layer F))
      → FitsBack ls
      → map
          (remap_layer (blank_neuron x))
          (train_hidden fl alpha regularization lambda deltas behind ls)
        ≡ map (remap_layer (blank_neuron x)) ls
  blank_hidden deltas behind [] h = refl
  blank_hidden deltas behind (l ∷ []) h = refl
  blank_hidden deltas behind (l ∷ m ∷ ls) (fits, rest) =
      let ty = l.activationfunctiontype in
      let own = deltas_from fl alpha regularization lambda 0 ty deltas behind l.neuron_list in
      let l' = trained_layer fl alpha regularization lambda m.neuron_list own l in
      let size =
        length-deltas_from fl alpha regularization lambda 0 ty deltas behind l.neuron_list in
      ap₂ ◌∷◌ (blank_layer m.neuron_list own l size fits.1)
        (blank_hidden own l'.neuron_list (m ∷ ls) rest)

  blank_back :
      (labels : List F) (ls : List (Layer F))
      → FitsBack ls
      → Labelled labels ls
      → map (remap_layer (blank_neuron x)) (train_back fl alpha regularization lambda labels ls)
        ≡ map (remap_layer (blank_neuron x)) ls
  blank_back labels [] h e = refl
  blank_back labels (l ∷ []) h e = refl
  blank_back labels (l ∷ m ∷ ls) (fits, rest) e =
      ap₂ ◌∷◌
        (blank_layer m.neuron_list _ l
          (length-last_deltas fl alpha regularization lambda l.neuron_list labels e) fits.1)
        (blank_hidden _ _ (m ∷ ls) rest)

  pub blank-trained :
      (nn : NeuralNetwork F) (labels : List F)
      → IsNetwork nn
      → Labelled labels (from_last nn.layer_list [])
      → remap (blank_neuron x) (trained fl alpha regularization lambda nn labels)
        ≡ remap (blank_neuron x) nn
  blank-trained nn labels h labelled =
      let g = remap_layer (blank_neuron x) in
      let back = from_last nn.layer_list [] in
      let (_, _, _, fits) = FitsLayers-back nn.layers nn.layer_list h in
      ap (λ ls. record nn { layer_list = ls })
        (from_last-map g (train_back fl alpha regularization lambda labels back) []
          ∙ ap (λ ls. from_last ls []) (blank_back labels back fits labelled)
          ∙ sym (from_last-map g back [])
          ∙ ap (map g) (from_last-back nn.layer_list))
