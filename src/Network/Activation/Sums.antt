-- ===== src/Network/Activation/Sums.antt =====
-- The loops of the activation as sums over lists.
use esp32_fl.Base.{
  ℕ, zero, suc, ◌≡◌, refl, ◌≢◌, some, List, [], ◌∷◌, ◌++◌, foldl, arith, ◌==◌, if◌then◌else◌,
  length, zip_with,
}
use esp32_fl.Float.{FloatArith}
use esp32_fl.Network.{Neuron, Layer}
use esp32_fl.Network.Activation.{
  perceptron, re_lu, sigmoid, last_two, weighted_sum, softmax, activation_function_calculaton,
}

pub last_two-append :
    {A : Type 0} (before : List A) (p l : A) → last_two (before ++ (p ∷ l ∷ [])) ≡ some (p, l)
unfolding last_two
last_two-append [] p l = refl
last_two-append (b ∷ []) p l = refl
last_two-append (b ∷ c ∷ []) p l = refl
last_two-append (b ∷ c ∷ d ∷ before) p l = last_two-append (c ∷ d ∷ before) p l

module _ (fl : FloatArith) where
  open fl use {F, widen, narrow, of_int, add, mul, add_d, exp}

  pub weighted_sum-foldl :
      (j : ℕ) (z : F) (ws : List F) (ps : List (Neuron F))
      → length ws ≡ j
      → length ps ≡ j
      → weighted_sum fl j z ws ps
        ≡ some (foldl add z (zip_with (λ w p. mul w (Neuron.activationfunctionvalue p)) ws ps))
  unfolding weighted_sum
  weighted_sum-foldl zero z [] ps e d = refl
  weighted_sum-foldl zero z (w ∷ ws) ps e d = absurd (omega arith)
  weighted_sum-foldl (suc j) z [] ps e d = absurd (omega arith)
  weighted_sum-foldl (suc j) z (w ∷ ws) [] e d = absurd (omega arith)
  weighted_sum-foldl (suc j) z (w ∷ ws) (p ∷ ps) e d =
      weighted_sum-foldl j (add z (mul w p.activationfunctionvalue)) ws ps (omega arith)
        (omega arith)

  pub activation-softmax :
      (ls : List (Layer F)) (z : F) (ty : ℕ)
      → ty ≡ 4
      → activation_function_calculaton fl ls z ty ≡ softmax fl ls z
  unfolding activation_function_calculaton
  activation-softmax ls z ty e = rw e

  pub activation-plain :
      (ls : List (Layer F)) (z : F) (ty : ℕ)
      → ty ≢ 4
      → activation_function_calculaton fl ls z ty
        ≡ some (
            if ty == 1
            then perceptron fl z
            else if ty == 2
            then re_lu fl z
            else if ty == 3
            then sigmoid fl z
            else of_int 0)
  unfolding activation_function_calculaton
  activation-plain ls z ty e = ground arith
