-- ===== src/Device/BackPropagation/Steps.antt =====
-- The inner loops of back propagation against their reference.
use esp32_fl.Base.{
  ℕ, zero, suc, ◌+◌, ◌≤◌, ◌<◌, ◌≡◌, refl, sym, Option, some, List, [], ◌∷◌, append-nil, map, foldl,
  arith, zip_with, length, get_elem?, All, All-mono,
}
use esp32_fl.Float.{FloatArith}
use esp32_fl.Network.{Neuron}
use esp32_fl.Network.Forward.Reference.{FitsNeuron}
use esp32_fl.Device.BackPropagation.{
  copy_floats, update_weights, update_neuron, update_neurons, output_deltas, accumulate,
  hidden_deltas,
}
use esp32_fl.Device.BackPropagation.Reference.{
  trained_weights, trained_neuron, last_deltas, entry_at, weight_at, deltas_from,
}

pub copy_floats_lem :
    {F : Type 0} (n : ℕ) (xs : List F) → n ≡ length xs → copy_floats n xs ≡ some xs
unfolding copy_floats
copy_floats_lem zero [] e = refl
copy_floats_lem zero (x ∷ xs) e = absurd (omega arith)
copy_floats_lem (suc n) [] e = absurd (omega arith)
copy_floats_lem (suc n) (x ∷ xs) e = rw (copy_floats_lem n xs (omega arith))

module _ (fl : FloatArith) (alpha : FloatArith.F fl) (regularization : ℕ)
    (lambda : FloatArith.F fl) where
  open fl use {F, add, mul}

  update_weights_lem :
      (k : ℕ) (delta : F) (ws : List F) (ps : List (Neuron F))
      → k ≡ length ws
      → k ≡ length ps
      → update_weights fl alpha regularization lambda k delta ws ps
        ≡ some (trained_weights fl alpha regularization lambda ps delta ws, [])
  unfolding update_weights
  update_weights_lem zero delta [] ps e d = refl
  update_weights_lem zero delta (w ∷ ws) ps e d = absurd (omega arith)
  update_weights_lem (suc k) delta [] ps e d = absurd (omega arith)
  update_weights_lem (suc k) delta (w ∷ ws) [] e d = absurd (omega arith)
  update_weights_lem (suc k) delta (w ∷ ws) (p ∷ ps) e d =
      rw (update_weights_lem k delta ws ps (omega arith) (omega arith))

  update_neuron_lem :
      (k : ℕ) (ps : List (Neuron F)) (delta : F) (n : Neuron F)
      → k ≡ length ps
      → FitsNeuron k n
      → update_neuron fl alpha regularization lambda k ps delta n
        ≡ some (
          trained_neuron fl alpha regularization lambda ps delta n,
          trained_weights fl alpha regularization lambda ps delta n.weight_list,
        )
  unfolding update_neuron
  update_neuron_lem k ps delta n e (_, h) = rw (
    update_weights_lem k delta n.weight_list ps (sym h) e,
    append-nil (trained_weights fl alpha regularization lambda ps delta n.weight_list),
  )

  pub update_neurons_lem :
      (steps : Neuron F → Option ℕ) (i : ℕ) (ps : List (Neuron F)) (deltas : List F)
      (ns : List (Neuron F))
      → ((n : Neuron F) → FitsNeuron (length ps) n → steps n ≡ some (length ps))
      → i ≡ length ns
      → i ≡ length deltas
      → All (FitsNeuron (length ps)) ns
      → update_neurons fl alpha regularization lambda steps i ps deltas ns
        ≡ some (
          zip_with (trained_neuron fl alpha regularization lambda ps) deltas ns,
          map Neuron.weight_list
              (zip_with (trained_neuron fl alpha regularization lambda ps) deltas ns),
        )
  unfolding update_neurons
  update_neurons_lem steps zero ps [] [] s e d h = refl
  update_neurons_lem steps zero ps (x ∷ deltas) ns s e d h = absurd (omega arith)
  update_neurons_lem steps zero ps [] (n ∷ ns) s e d h = absurd (omega arith)
  update_neurons_lem steps (suc i) ps [] ns s e d h = absurd (omega arith)
  update_neurons_lem steps (suc i) ps (x ∷ deltas) [] s e d h = absurd (omega arith)
  update_neurons_lem steps (suc i) ps (x ∷ deltas) (n ∷ ns) s e d (h, hs) = rw (
    s n h,
    update_neuron_lem (length ps) ps x n refl h,
    update_neurons_lem steps i ps deltas ns s (omega arith) (omega arith) hs,
  )

  pub output_deltas_lem :
      (k : ℕ) (ns : List (Neuron F)) (ys : List F)
      → k ≡ length ns
      → k ≡ length ys
      → output_deltas fl alpha regularization lambda k ns ys
        ≡ some (last_deltas fl alpha regularization lambda ns ys)
  unfolding output_deltas
  output_deltas_lem zero [] ys e d = refl
  output_deltas_lem zero (n ∷ ns) ys e d = absurd (omega arith)
  output_deltas_lem (suc k) [] ys e d = absurd (omega arith)
  output_deltas_lem (suc k) (n ∷ ns) [] e d = absurd (omega arith)
  output_deltas_lem (suc k) (n ∷ ns) (y ∷ ys) e d =
      rw (output_deltas_lem k ns ys (omega arith) (omega arith))

  get-entry_at :
      (ws : List F) (i : ℕ)
      → i < length ws
      → get_elem? ws i ≡ some (entry_at fl alpha regularization lambda ws i)
  get-entry_at [] i h = absurd (omega arith)
  get-entry_at (x ∷ xs) zero h = refl
  get-entry_at (x ∷ xs) (suc i) h = get-entry_at xs i (omega arith)

  accumulate_lem :
      (k : ℕ) (sum : F) (deltas : List F) (behind : List (Neuron F)) (i : ℕ)
      → k ≡ length deltas
      → k ≡ length behind
      → All (λ n. i < length (Neuron.weight_list n)) behind
      → accumulate fl alpha regularization lambda k sum deltas (map Neuron.weight_list behind) i
        ≡ some (
            foldl add sum (
              zip_with (λ d n. mul d (weight_at fl alpha regularization lambda i n)) deltas behind))
  unfolding accumulate
  accumulate_lem zero sum [] behind i e d h = refl
  accumulate_lem zero sum (x ∷ deltas) behind i e d h = absurd (omega arith)
  accumulate_lem (suc k) sum [] behind i e d h = absurd (omega arith)
  accumulate_lem (suc k) sum (x ∷ deltas) [] i e d h = absurd (omega arith)
  accumulate_lem (suc k) sum (x ∷ deltas) (n ∷ behind) i e d (h, hs) = rw (
    get-entry_at n.weight_list i h,
    accumulate_lem k (add sum (mul x (weight_at fl alpha regularization lambda i n))) deltas behind
        i (omega arith) (omega arith) hs,
  )

  pub hidden_deltas_lem :
      (left i columns : ℕ) (deltas : List F) (behind : List (Neuron F)) (ty : ℕ)
      (ns : List (Neuron F))
      → left ≡ length ns
      → columns ≡ length deltas
      → columns ≡ length behind
      → All (λ n. i + left ≤ length (Neuron.weight_list n)) behind
      → hidden_deltas fl alpha regularization lambda left i columns deltas
          (map Neuron.weight_list behind)
          ty
          ns
        ≡ some (deltas_from fl alpha regularization lambda i ty deltas behind ns)
  unfolding hidden_deltas
  hidden_deltas_lem zero i columns deltas behind ty [] e d b h = refl
  hidden_deltas_lem zero i columns deltas behind ty (n ∷ ns) e d b h = absurd (omega arith)
  hidden_deltas_lem (suc left) i columns deltas behind ty [] e d b h = absurd (omega arith)
  hidden_deltas_lem (suc left) i columns deltas behind ty (n ∷ ns) e d b h = rw (
    accumulate_lem columns (fl.of_int 0) deltas behind i d b (
        All-mono _ _ (λ m (p : i + suc left ≤ length (Neuron.weight_list m)). omega (arith, p))
          behind h),
    hidden_deltas_lem left (suc i) columns deltas behind ty ns (omega arith) d b (
        All-mono _ _ (λ m (p : i + suc left ≤ length (Neuron.weight_list m)). omega (arith, p))
          behind h),
  )
