-- ===== src/Device/BackPropagation/Rounds.antt =====
-- The rounds of back propagation against the layers of the reference.
use esp32_fl.Base.{
  ℕ, zero, suc, ◌≡◌, refl, sym, ap, ◌∙◌, ◌≢◌, none, some, List, [], ◌∷◌, map, arith, zip_with, leb,
  length, if◌then◌else◌, All, All-mono, rounds,
}
use esp32_fl.Float.{FloatArith}
use esp32_fl.Network.{Neuron, Layer}
use esp32_fl.Network.Forward.Reference.{FitsNeuron, FitsLayer}
use esp32_fl.Device.BackPropagation.{Carried, last_round, hidden_round, hidden_rounds, back_rounds}
use esp32_fl.Device.BackPropagation.Reference.{
  trained_neuron, trained_layer, last_deltas, deltas_from, train_hidden, train_back, FitsBack,
  SameHidden, SameBefore, Labelled,
}
use esp32_fl.Device.BackPropagation.Steps.{
  copy_floats_lem, update_neurons_lem, output_deltas_lem, hidden_deltas_lem,
}

pub length-zip_with :
    {A B C : Type 0} (f : A → B → C) (xs : List A) (ys : List B)
    → length xs ≡ length ys
    → length (zip_with f xs ys) ≡ length ys
length-zip_with f [] [] e = refl
length-zip_with f [] (y ∷ ys) e = absurd (omega arith)
length-zip_with f (x ∷ xs) [] e = absurd (omega arith)
length-zip_with f (x ∷ xs) (y ∷ ys) e = ap suc (length-zip_with f xs ys (omega arith))

-- A loop bound below its limit.
capped : (k limit m : ℕ) → k ≡ m → limit ≡ m → (if leb k limit then some k else none) ≡ some m
capped k limit m e d = ground arith

module _ {F : Type 0} where
  -- The state of the loop behind a layer with these neurons.
  abbrev carried : ℕ → ℕ → List F → List (Neuron F) → Carried F
  carried number column deltas behind = record {
    deltafunctionsnumber = number;
    weightscolumn = column;
    deltafunctions = deltas;
    weights = map Neuron.weight_list behind;
  }

counted :
    {F : Type 0} (l : Layer F) (ls : List (Layer F))
    → FitsBack (l ∷ ls)
    → rounds l.neurons ≡ length l.neuron_list
counted l [] h = h
counted l (m ∷ ls) h = h.0.0

later :
    {F : Type 0} (l m : Layer F) (ls : List (Layer F))
    → SameHidden (l ∷ m ∷ ls)
    → SameHidden (m ∷ ls)
later l m [] h = tt
later l m (k ∷ ls) h = h.1

same_size :
    {F : Type 0} (l m : Layer F) (ls : List (Layer F))
    → SameHidden (l ∷ m ∷ ls)
    → length ls ≢ 0
    → length l.neuron_list ≡ length m.neuron_list
same_size l m [] h e = absurd (e refl)
same_size l m (k ∷ ls) h e = h.0

module _ (fl : FloatArith) (alpha : FloatArith.F fl) (regularization : ℕ)
    (lambda : FloatArith.F fl) where
  open fl use {F}

  pub length-deltas_from :
      (i ty : ℕ) (deltas : List F) (behind ns : List (Neuron F))
      → length (deltas_from fl alpha regularization lambda i ty deltas behind ns) ≡ length ns
  length-deltas_from i ty deltas behind [] = refl
  length-deltas_from i ty deltas behind (n ∷ ns) =
      ap suc (length-deltas_from (suc i) ty deltas behind ns)

  pub length-last_deltas :
      (ns : List (Neuron F)) (labels : List F)
      → length labels ≡ length ns
      → length (last_deltas fl alpha regularization lambda ns labels) ≡ length ns
  length-last_deltas [] [] e = refl
  length-last_deltas [] (y ∷ ys) e = absurd (omega arith)
  length-last_deltas (n ∷ ns) [] e = absurd (omega arith)
  length-last_deltas (n ∷ ns) (y ∷ ys) e = ap suc (length-last_deltas ns ys (omega arith))

  -- A trained neuron has as many weights as before.
  weights-trained :
      (ps : List (Neuron F)) (deltas : List F) (ns : List (Neuron F))
      → All (FitsNeuron (length ps)) ns
      → All
          (λ n. length (Neuron.weight_list n) ≡ length ps)
          (zip_with (trained_neuron fl alpha regularization lambda ps) deltas ns)
  weights-trained ps [] ns h = tt
  weights-trained ps (x ∷ deltas) [] h = tt
  weights-trained ps (x ∷ deltas) (n ∷ ns) (h, hs) =
      (length-zip_with _ n.weight_list ps h.1 ∙ refl, weights-trained ps deltas ns hs)

  last_round_lem :
      (l previous : Layer F) (labels : List F)
      → FitsLayer (length previous.neuron_list) l
      → rounds previous.neurons ≡ length previous.neuron_list
      → length labels ≡ length l.neuron_list
      → last_round fl alpha regularization lambda l previous labels ≡ (
          let deltas = last_deltas fl alpha regularization lambda l.neuron_list labels in
          let l' = trained_layer fl alpha regularization lambda previous.neuron_list deltas l in
          some (l', carried (rounds l.neurons) (rounds l.neurons) deltas l'.neuron_list))
  unfolding last_round
  last_round_lem l previous labels (count, fits) e labelled =
      let deltas = last_deltas fl alpha regularization lambda l.neuron_list labels in
      let size = length-last_deltas l.neuron_list labels labelled in
      rw (
        output_deltas_lem fl alpha regularization lambda (rounds l.neurons) l.neuron_list labels
            count (count ∙ sym labelled),
        update_neurons_lem fl alpha regularization lambda (λ n. some (rounds previous.neurons))
            (rounds l.neurons) previous.neuron_list deltas l.neuron_list (λ n f. ap some e) count
            (count ∙ sym size) fits,
      )

  hidden_round_lem :
      (number column : ℕ) (deltas : List F) (behind : List (Neuron F)) (l previous : Layer F)
      → number ≡ length deltas
      → column ≡ length deltas
      → column ≡ length behind
      → All (λ n. length (Neuron.weight_list n) ≡ length l.neuron_list) behind
      → FitsLayer (length previous.neuron_list) l
      → rounds previous.neurons ≡ length previous.neuron_list
      → hidden_round fl alpha regularization lambda (carried number column deltas behind) l previous
        ≡ (let own =
              deltas_from fl alpha regularization lambda 0 l.activationfunctiontype deltas behind
                l.neuron_list in
            let l' = trained_layer fl alpha regularization lambda previous.neuron_list own l in
            some (l', carried (rounds previous.neurons) (rounds l.neurons) own l'.neuron_list))
  unfolding hidden_round
  hidden_round_lem number column deltas behind l previous a b c h (count, fits) e =
      let ty = l.activationfunctiontype in
      let own = deltas_from fl alpha regularization lambda 0 ty deltas behind l.neuron_list in
      let size = length-deltas_from 0 ty deltas behind l.neuron_list in
      rw (
        copy_floats_lem number deltas a,
        hidden_deltas_lem fl alpha regularization lambda (rounds l.neurons) 0 column deltas behind
            ty l.neuron_list count b c
            (All-mono _ _
              (λ n (p : length (Neuron.weight_list n) ≡ length l.neuron_list).
                omega (arith, p, count))
              behind h),
        update_neurons_lem fl alpha regularization lambda
            (λ n.
              if leb (rounds n.weights) (rounds previous.neurons)
              then some (rounds n.weights)
              else none)
            (rounds l.neurons) previous.neuron_list own l.neuron_list
            (λ n f. capped (rounds n.weights) _ _ f.0 e) count (count ∙ sym size) fits,
      )

  hidden_rounds_lem :
      (k number column : ℕ) (deltas : List F) (behind : List (Neuron F)) (l : Layer F)
      (ls : List (Layer F))
      → k ≡ length ls
      → FitsBack (l ∷ ls)
      → SameHidden (l ∷ ls)
      → (k ≢ 0 → number ≡ length deltas)
      → column ≡ length deltas
      → column ≡ length behind
      → All (λ n. length (Neuron.weight_list n) ≡ length l.neuron_list) behind
      → hidden_rounds fl alpha regularization lambda k
          (carried number column deltas behind)
          (l ∷ ls)
        ≡ some (train_hidden fl alpha regularization lambda deltas behind (l ∷ ls))
  unfolding hidden_rounds
  hidden_rounds_lem zero number column deltas behind l [] e fits same a b c h = refl
  hidden_rounds_lem zero number column deltas behind l (m ∷ ls) e fits same a b c h =
      absurd (omega arith)
  hidden_rounds_lem (suc k) number column deltas behind l [] e fits same a b c h =
      absurd (omega arith)
  hidden_rounds_lem (suc k) number column deltas behind l (m ∷ ls) e (fits, rest) same a b c h =
      let own =
        deltas_from fl alpha regularization lambda 0 l.activationfunctiontype deltas behind
          l.neuron_list in
      let l' = trained_layer fl alpha regularization lambda m.neuron_list own l in
      let size = length-deltas_from 0 l.activationfunctiontype deltas behind l.neuron_list in
      rw (
        hidden_round_lem number column deltas behind l m (a (λ z. omega (arith, z))) b c h fits
            (counted m ls rest),
        hidden_rounds_lem k (rounds m.neurons) (rounds l.neurons) own l'.neuron_list m ls
            (omega arith) rest (later l m ls same)
            (λ nz.
              counted m ls rest
              ∙ sym (same_size l m ls same (λ z. nz (omega (arith, e, z))))
              ∙ sym size)
            (fits.0 ∙ sym size) (fits.0 ∙ sym (length-zip_with _ own l.neuron_list size))
            (weights-trained m.neuron_list own l.neuron_list fits.1),
      )

  pub back_rounds_lem :
      (k : ℕ) (labels : List F) (ls : List (Layer F))
      → suc k ≡ length ls
      → FitsBack ls
      → SameBefore ls
      → Labelled labels ls
      → back_rounds fl alpha regularization lambda k labels ls
        ≡ some (train_back fl alpha regularization lambda labels ls)
  unfolding back_rounds
  back_rounds_lem k labels [] e fits same labelled = absurd (omega arith)
  back_rounds_lem zero labels (l ∷ []) e fits same labelled = refl
  back_rounds_lem (suc k) labels (l ∷ []) e fits same labelled = absurd (omega arith)
  back_rounds_lem zero labels (l ∷ m ∷ ls) e fits same labelled = absurd (omega arith)
  back_rounds_lem (suc k) labels (l ∷ m ∷ ls) e (fits, rest) same labelled =
      let deltas = last_deltas fl alpha regularization lambda l.neuron_list labels in
      let l' = trained_layer fl alpha regularization lambda m.neuron_list deltas l in
      let size = length-last_deltas l.neuron_list labels labelled in
      rw (
        last_round_lem l m labels fits (counted m ls rest) labelled,
        hidden_rounds_lem k (rounds l.neurons) (rounds l.neurons) deltas l'.neuron_list m ls
            (omega arith) rest same (λ nz. fits.0 ∙ sym size) (fits.0 ∙ sym size)
            (fits.0 ∙ sym (length-zip_with _ deltas l.neuron_list size))
            (weights-trained m.neuron_list deltas l.neuron_list fits.1),
      )
