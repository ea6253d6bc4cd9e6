-- ===== src/Device/BackPropagation/Uneven.antt =====
-- `BackPropagation` on a network with two neighbouring hidden layers of different widths.
use esp32_fl.Base.{
  ℕ, zero, suc, ◌+◌, ◌-◌, ◌≤◌, ◌<◌, ◌≡◌, ◌≢◌, refl, sym, ap, ◌∙◌, inl, inr, Bool-cases, ltb, Option,
  none, some, List, [], ◌∷◌, ◌++◌, arith, leb, length, length-append, get_elem?, if◌then◌else◌,
  >>=-eq-some, Option-cases, rounds,
}
use esp32_fl.Float.{FloatArith}
use esp32_fl.Network.{Layer, NeuralNetwork}
use esp32_fl.Device.BackPropagation.Short.{
  from_last-layers, length-from_last, copy_floats-length, copy_floats-short, hidden_deltas-length,
  hidden_deltas-short,
}
use esp32_fl.Device.BackPropagation.{
  from_last, Carried, copy_floats, hidden_deltas, update_neurons, last_round, hidden_round,
  hidden_rounds, back_rounds, back_propagation,
}

module _ (fl : FloatArith) where
  open fl use {F}

  module _ (alpha : F) (regularization : ℕ) (lambda : F) where
    abbrev number_of : Option (Layer F × Carried F) → ℕ
    number_of none = 0
    number_of (some (l, c)) = c.deltafunctionsnumber

    abbrev column_of : Option (Layer F × Carried F) → ℕ
    column_of none = 0
    column_of (some (l, c)) = c.weightscolumn

    abbrev entries_of : Option (Layer F × Carried F) → ℕ
    entries_of none = 0
    entries_of (some (l, c)) = length c.deltafunctions

    -- What a round leaves: as many entries as the layer has neurons, but the count of the layer
    -- before.
    hidden_round-Carried :
        (c : Carried F) (l previous : Layer F) {l' : Layer F} {c' : Carried F}
        → hidden_round fl alpha regularization lambda c l previous ≡ some (l', c')
        → (c'.deltafunctionsnumber ≡ rounds previous.neurons)
          × (c'.weightscolumn ≡ rounds l.neurons)
          × (length c'.deltafunctions ≡ rounds l.neurons)
    unfolding hidden_round
    hidden_round-Carried c l previous {l'} {c'} e =
        let (copied, k, e₁) =
          >>=-eq-some (copy_floats c.deltafunctionsnumber c.deltafunctions) _ e in
        let (deltas, computed, e₂) =
          >>=-eq-some
            (hidden_deltas fl alpha regularization lambda (rounds l.neurons) 0 c.weightscolumn
              copied c.weights l.activationfunctiontype l.neuron_list)
            _ e₁ in
        let ((ns, columns), updated, now) =
          >>=-eq-some
            (update_neurons fl alpha regularization lambda
              (λ n.
                if leb (rounds n.weights) (rounds previous.neurons)
                then some (rounds n.weights)
                else none)
              (rounds l.neurons) previous.neuron_list deltas l.neuron_list)
            _ e₂ in
        let many =
          hidden_deltas-length fl alpha regularization lambda (rounds l.neurons) 0 c.weightscolumn
            copied c.weights l.activationfunctiontype l.neuron_list computed in
        (sym (ap number_of now), sym (ap column_of now), sym (ap entries_of now) ∙ many)

    -- A round on the layer before it, of another width.
    hidden_round-uneven :
        (c : Carried F) (l previous : Layer F) (width : ℕ)
        → c.deltafunctionsnumber ≡ rounds l.neurons
        → c.weightscolumn ≡ width
        → length c.deltafunctions ≡ width
        → rounds l.neurons ≢ width
        → 0 < rounds l.neurons
        → hidden_round fl alpha regularization lambda c l previous ≡ none
    unfolding hidden_round
    hidden_round-uneven c l previous width number columns entries ne pos =
        elim (Option-cases (copy_floats c.deltafunctionsnumber c.deltafunctions)) [
          | inl fault ↦ rw fault refl
          | inr (copied, e) ↦ elim (Bool-cases (ltb width (rounds l.neurons))) [
            | inl wider ↦
                let fault =
                  copy_floats-short c.deltafunctionsnumber c.deltafunctions
                    (ground (arith, wider, number, entries)) in
                rw fault refl
            | inr narrower ↦
                let count = copy_floats-length c.deltafunctionsnumber c.deltafunctions e in
                let fault =
                  hidden_deltas-short fl alpha regularization lambda (rounds l.neurons) 0
                    c.weightscolumn copied c.weights l.activationfunctiontype l.neuron_list
                    (ground (arith, narrower, number, columns, count, ne)) pos in
                rw e (rw fault refl)
          ]
        ]

    hidden_rounds-two :
        (k : ℕ) (c : Carried F) (l previous before : Layer F) (rest : List (Layer F))
        → rounds previous.neurons ≢ rounds l.neurons
        → 0 < rounds previous.neurons
        → hidden_rounds fl alpha regularization lambda
            (suc (suc k))
            c
            (l ∷ previous ∷ before ∷ rest)
          ≡ none
    unfolding hidden_rounds
    hidden_rounds-two k c l previous before rest ne pos =
        elim (Option-cases (hidden_round fl alpha regularization lambda c l previous)) [
          | inl fault ↦ rw fault refl
          | inr ((l', c'), e) ↦
              let (number, columns, entries) = hidden_round-Carried c l previous e in
              let fault =
                hidden_round-uneven c' previous before (rounds l.neurons) number columns entries ne
                  pos in
              rw e (rw fault refl)
        ]

    hidden_rounds-uneven :
        (ms : List (Layer F)) (k : ℕ) (c : Carried F) (l previous before : Layer F)
        (rest : List (Layer F))
        → length ms + 2 ≤ k
        → rounds previous.neurons ≢ rounds l.neurons
        → 0 < rounds previous.neurons
        → hidden_rounds fl alpha regularization lambda k c (ms ++ (l ∷ previous ∷ before ∷ rest))
          ≡ none
    unfolding hidden_rounds
    hidden_rounds-uneven ms zero c l previous before rest h ne pos = absurd (omega arith)
    hidden_rounds-uneven [] (suc zero) c l previous before rest h ne pos = absurd (omega arith)
    hidden_rounds-uneven [] (suc (suc k)) c l previous before rest h ne pos =
        hidden_rounds-two k c l previous before rest ne pos
    hidden_rounds-uneven (m ∷ []) (suc k) c l previous before rest h ne pos =
        elim (Option-cases (hidden_round fl alpha regularization lambda c m l)) [
          | inl fault ↦ rw fault refl
          | inr ((m₁, c'), e) ↦
              let fault =
                hidden_rounds-uneven [] k c' l previous before rest (omega arith) ne pos in
              rw e (rw fault refl)
        ]
    hidden_rounds-uneven (m ∷ m' ∷ ms) (suc k) c l previous before rest h ne pos =
        elim (Option-cases (hidden_round fl alpha regularization lambda c m m')) [
          | inl fault ↦ rw fault refl
          | inr ((m₁, c'), e) ↦
              let fault =
                hidden_rounds-uneven (m' ∷ ms) k c' l previous before rest (omega arith) ne pos in
              rw e (rw fault refl)
        ]

    back_rounds-uneven :
        (label : List F) (ms : List (Layer F)) (k : ℕ) (out l previous before : Layer F)
        (rest : List (Layer F))
        → length ms + 3 ≤ k
        → rounds previous.neurons ≢ rounds l.neurons
        → 0 < rounds previous.neurons
        → back_rounds fl alpha regularization lambda k label
            (out ∷ ms ++ (l ∷ previous ∷ before ∷ rest))
          ≡ none
    unfolding back_rounds
    back_rounds-uneven label ms zero out l previous before rest h ne pos = absurd (omega arith)
    back_rounds-uneven label [] (suc k) out l previous before rest h ne pos =
        elim (Option-cases (last_round fl alpha regularization lambda out l label)) [
          | inl fault ↦ rw fault refl
          | inr ((m₁, c'), e) ↦
              let fault =
                hidden_rounds-uneven [] k c' l previous before rest (omega arith) ne pos in
              rw e (rw fault refl)
        ]
    back_rounds-uneven label (m ∷ ms) (suc k) out l previous before rest h ne pos =
        elim (Option-cases (last_round fl alpha regularization lambda out m label)) [
          | inl fault ↦ rw fault refl
          | inr ((m₁, c'), e) ↦
              let fault =
                hidden_rounds-uneven (m ∷ ms) k c' l previous before rest (omega arith) ne pos in
              rw e (rw fault refl)
        ]

module _ (fl : FloatArith) where
  open fl use {F}

  -- If the count of the layers is that of the chain, and two neighbouring layers that are neither
  -- the first nor the last one, of which the one nearer to the input has a neuron, have different
  -- numbers of neurons: `BackPropagation` faults.
  pub back_propagation-uneven :
      (nn : NeuralNetwork F) (label : List F) (alpha : F) (regularization : ℕ) (lambda : F)
      (front back : List (Layer F)) (before previous l out : Layer F)
      → nn.layer_list ≡ front ++ (before ∷ previous ∷ l ∷ back ++ (out ∷ []))
      → rounds nn.layers ≡ length nn.layer_list
      → rounds previous.neurons ≢ rounds l.neurons
      → 0 < rounds previous.neurons
      → back_propagation fl nn label alpha regularization lambda ≡ none
  unfolding back_propagation
  back_propagation-uneven nn label alpha regularization lambda front back before previous l out e
        counted ne pos =
      let tail = before ∷ previous ∷ l ∷ back ++ (out ∷ []) in
      let upper : List (Layer F) = l ∷ previous ∷ before ∷ from_last front [] in
      let order : from_last nn.layer_list [] ≡ out ∷ from_last back [] ++ upper =
        ap (λ ls. from_last ls []) e ∙ from_last-layers front back before previous l out in
      let many : length (from_last back []) + 3 ≤ rounds nn.layers - 1 = omega (
        arith,
        counted,
        ap length e,
        length-append front tail,
        length-append back (out ∷ []),
        length-from_last back [],
      ) in
      let fault =
        back_rounds-uneven fl alpha regularization lambda label (from_last back [])
          (rounds nn.layers - 1) out l previous before (from_last front []) many ne pos in
      elim (Option-cases (get_elem? nn.layer_list 0)) [
        | inl empty ↦ rw empty refl
        | inr (first, at) ↦ rw at (rw order (rw fault refl))
      ]
