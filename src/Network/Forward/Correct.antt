-- ===== src/Network/Forward/Correct.antt =====
-- `FeedFoward` against its reference.
use mathlib.Core.List.{map-append}
use esp32_fl.Base.{
  ℕ, zero, suc, ◌-◌, ◌≡◌, refl, ◌≢◌, ◌∙◌, some, List, [], ◌∷◌, ◌++◌, map, foldl, arith, ◌==◌,
  length, length-map, All, append_assoc, rounds, Bool-cases, Option-cases, inl, inr,
}
use esp32_fl.Float.{FloatArith}
use esp32_fl.Network.{Neuron, Layer, NeuralNetwork}
use esp32_fl.Network.Activation.{
  soft_max, pre_activation, softmax_sum, softmax, activation_function_calculaton,
}
use esp32_fl.Network.Activation.Sums.{
  weighted_sum-foldl, last_two-append, activation-plain, activation-softmax,
}
use esp32_fl.Network.Forward.{feed_neurons, feed_layers, feed_foward}
use esp32_fl.Network.Forward.Reference.{
  set_value, affine, activate, add_exp, softmax_total, apply_layer, hidden_layer, output_layer,
  outputs, forward, FitsNeuron, FitsLayer, FitsFrom, FitsLayers, IsNetwork,
}

module _ (fl : FloatArith) where
  open fl use {F, of_int}

  pre_activation-affine :
      (ps : List (Neuron F)) (n : Neuron F)
      → FitsNeuron (length ps) n
      → pre_activation fl ps n ≡ some (affine fl ps n)
  unfolding pre_activation
  pre_activation-affine ps n (r, e) =
      rw r (weighted_sum-foldl fl (length ps) _ n.weight_list ps e refl)

  -- A neuron without its value: what the softmax reads of the last layer.
  abbrev frozen : Neuron F → Neuron F
  frozen n = set_value fl n (of_int 0)

  softmax_sum-frozen :
      (i : ℕ) (s : F) (ps ns : List (Neuron F))
      → softmax_sum fl i s ps ns ≡ softmax_sum fl i s ps (map frozen ns)
  unfolding softmax_sum pre_activation
  softmax_sum-frozen zero s ps ns = refl
  softmax_sum-frozen (suc i) s ps [] = refl
  softmax_sum-frozen (suc i) s ps (n ∷ ns) = elim (Option-cases (pre_activation fl ps n)) [
    | inl e ↦ rw e
    | inr (z, e) ↦ rw e (softmax_sum-frozen i (add_exp fl s z) ps ns)
  ]

  softmax_sum-foldl :
      (i : ℕ) (s : F) (ps ns : List (Neuron F))
      → All (FitsNeuron (length ps)) ns
      → i ≡ length ns
      → softmax_sum fl i s ps ns ≡ some (foldl (add_exp fl) s (map (affine fl ps) ns))
  unfolding softmax_sum
  softmax_sum-foldl zero s ps [] h e = refl
  softmax_sum-foldl zero s ps (n ∷ ns) h e = absurd (omega arith)
  softmax_sum-foldl (suc i) s ps [] h e = absurd (omega arith)
  softmax_sum-foldl (suc i) s ps (n ∷ ns) (h, hs) e =
      rw (pre_activation-affine ps n h)
        (softmax_sum-foldl i (add_exp fl s (affine fl ps n)) ps ns hs (omega arith))

  -- The loop over the neurons, where the activation is a function of the sum as long as the
  -- neurons differ from the first ones in their values alone.
  module _ (whole : List (Neuron F) → List (Layer F)) (ty : ℕ) (ps : List (Neuron F)) (act : F → F)
      (ns₀ : List (Neuron F))
      (acts : (ns : List (Neuron F)) (z : F)
        → map frozen ns ≡ map frozen ns₀
        → activation_function_calculaton fl (whole ns) z ty ≡ some (act z)) where
    feed_neurons-apply :
        (i : ℕ) (done rest : List (Neuron F))
        → All (FitsNeuron (length ps)) rest
        → i ≡ length rest
        → map frozen (done ++ rest) ≡ map frozen ns₀
        → feed_neurons fl i whole ty ps done rest ≡ some (done ++ apply_layer fl act ps rest)
    unfolding feed_neurons
    feed_neurons-apply zero done [] h e same = refl
    feed_neurons-apply zero done (n ∷ rest) h e same = absurd (omega arith)
    feed_neurons-apply (suc i) done [] h e same = absurd (omega arith)
    feed_neurons-apply (suc i) done (n ∷ rest) (h, hs) e same =
        let n' : Neuron F = set_value fl n (act (affine fl ps n)) in
        let moved : map frozen ((done ++ (n' ∷ [])) ++ rest) ≡ map frozen (done ++ (n ∷ rest)) =
          rw (
            append_assoc done (n' ∷ []) rest,
            map-append frozen done (n' ∷ rest),
            map-append frozen done (n ∷ rest),
          ) in
        rw (
          pre_activation-affine ps n h,
          acts (done ++ (n ∷ rest)) (affine fl ps n) same,
          feed_neurons-apply i (done ++ (n' ∷ [])) rest hs (omega arith) (moved ∙ same),
          append_assoc done (n' ∷ []) (apply_layer fl act ps rest),
        )

  feed_neurons-hidden :
      (whole : List (Neuron F) → List (Layer F)) (ps : List (Neuron F)) (l : Layer F)
      → FitsLayer (length ps) l
      → l.activationfunctiontype ≢ 4
      → feed_neurons fl (rounds l.neurons) whole l.activationfunctiontype ps [] l.neuron_list
        ≡ some (hidden_layer fl ps l).neuron_list
  feed_neurons-hidden whole ps l (r, fits) plain =
      feed_neurons-apply whole l.activationfunctiontype ps (activate fl l.activationfunctiontype)
        l.neuron_list (λ ns z same. activation-plain fl (whole ns) z l.activationfunctiontype plain)
        (rounds l.neurons) [] l.neuron_list fits r refl

  softmax-last :
      (before : List (Layer F)) (previous l : Layer F) (ns : List (Neuron F)) (z : F)
      → FitsLayer (length previous.neuron_list) l
      → map frozen ns ≡ map frozen l.neuron_list
      → softmax fl (before ++ (previous ∷ record l { neuron_list = ns } ∷ [])) z
        ≡ some (soft_max fl z (softmax_total fl previous.neuron_list l.neuron_list))
  unfolding softmax
  softmax-last before previous l ns z (r, fits) same = rw (
    last_two-append before previous (record l { neuron_list = ns }),
    softmax_sum-frozen (rounds l.neurons) (of_int 0) previous.neuron_list ns,
    same,
    ← softmax_sum-frozen (rounds l.neurons) (of_int 0) previous.neuron_list l.neuron_list,
    softmax_sum-foldl (rounds l.neurons) (of_int 0) previous.neuron_list l.neuron_list fits r,
  )

  feed_neurons-output :
      (before : List (Layer F)) (previous l : Layer F)
      → FitsLayer (length previous.neuron_list) l
      → feed_neurons fl
          (rounds l.neurons)
          (λ ns. before ++ (previous ∷ record l { neuron_list = ns } ∷ []))
          l.activationfunctiontype
          previous.neuron_list
          []
          l.neuron_list
        ≡ some (output_layer fl previous.neuron_list l).neuron_list
  feed_neurons-output before previous l fits = elim (Bool-cases (l.activationfunctiontype == 4)) [
    | inl e ↦ rw e (
        feed_neurons-apply (λ ns. before ++ (previous ∷ record l { neuron_list = ns } ∷ []))
          l.activationfunctiontype previous.neuron_list
          (λ z. soft_max fl z (softmax_total fl previous.neuron_list l.neuron_list)) l.neuron_list
          (λ ns z same.
            activation-softmax fl _ z l.activationfunctiontype (ground arith)
            ∙ softmax-last before previous l ns z fits same)
          (rounds l.neurons) [] l.neuron_list fits.1 fits.0 refl)
    | inr e ↦ rw e (
        feed_neurons-hidden (λ ns. before ++ (previous ∷ record l { neuron_list = ns } ∷ []))
          previous.neuron_list l fits (ground arith))
  ]

  output_layer-rest :
      (ps : List (Neuron F)) (l : Layer F)
      → record l { neuron_list = (output_layer fl ps l).neuron_list } ≡ output_layer fl ps l
  output_layer-rest ps l = elim (Bool-cases (l.activationfunctiontype == 4)) [
    | inl e ↦ rw e
    | inr e ↦ rw e
  ]

  feed_layers-outputs :
      (k : ℕ) (before : List (Layer F)) (previous : Layer F) (rest : List (Layer F))
      → k ≡ length rest
      → FitsFrom (length previous.neuron_list) rest
      → feed_layers fl k before previous rest
        ≡ some (before ++ (previous ∷ outputs fl previous.neuron_list rest))
  unfolding feed_layers
  feed_layers-outputs zero before previous [] e h = refl
  feed_layers-outputs zero before previous (l ∷ rest) e h = absurd (omega arith)
  feed_layers-outputs (suc k) before previous [] e h = absurd (omega arith)
  feed_layers-outputs (suc zero) before previous (l ∷ []) e h = rw (
    feed_neurons-output before previous l h,
    output_layer-rest previous.neuron_list l,
    append_assoc before (previous ∷ []) (output_layer fl previous.neuron_list l ∷ []),
  )
  feed_layers-outputs (suc (suc k)) before previous (l ∷ []) e h = absurd (omega arith)
  feed_layers-outputs (suc k) before previous (l ∷ m ∷ rest) e (h, plain, hs) =
      let l' : Layer F = hidden_layer fl previous.neuron_list l in
      rw (
        feed_neurons-hidden _ previous.neuron_list l h plain,
        feed_layers-outputs k (before ++ (previous ∷ [])) l' (m ∷ rest) (omega arith) (
            rw
              (length-map l.neuron_list (λ n.
                set_value fl n
                  (activate fl l.activationfunctiontype (affine fl previous.neuron_list n))))
              hs),
        append_assoc before (previous ∷ []) (l' ∷ outputs fl l'.neuron_list (m ∷ rest)),
      )

  -- For a network whose counts are those of its chains and whose hidden layers are no softmax,
  -- `FeedFoward` runs through and computes the reference: each layer from the values of the one
  -- before it, and a softmax in the last layer normalised over that layer.
  pub feed_foward-forward :
      (nn : NeuralNetwork F)
      → IsNetwork nn
      → feed_foward fl nn ≡ some (record nn { layer_list = forward fl nn.layer_list })
  unfolding feed_foward
  feed_foward-forward nn h = go nn.layer_list refl h
    where
      go :
          (ls : List (Layer F))
          → nn.layer_list ≡ ls
          → FitsLayers nn.layers ls
          → feed_foward fl nn ≡ some (record nn { layer_list = forward fl nn.layer_list })
      go [] e f = absurd f
      go (first ∷ rest) e (n, _, f) =
          rw (e, feed_foward)
            (rw (feed_layers-outputs (rounds nn.layers - 1) [] first rest (omega arith) f))
