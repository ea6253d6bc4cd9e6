-- ===== src/Network/Activation.antt =====
-- The activation functions, and the sums that they are applied to, of the server's
-- federatedlearning.c.
pub mod Sums
use esp32_fl.Base.{
  ℕ, zero, suc, Option, none, some, List, [], ◌∷◌, ◌==◌, if◌then◌else◌, ◌>>=◌, rounds,
}
use esp32_fl.Float.{FloatArith}
use esp32_fl.Network.{Neuron, Layer, NeuralNetwork}

-- The last layer of a network and the one before it, as `lastlayer` and `previouslayer` reach
-- them; `none` is a null pointer.
pub last_two : {A : Type 0} → List A → Option (A × A)
last_two [] = none
last_two (p ∷ []) = none
last_two (p ∷ l ∷ []) = some (p, l)
last_two (p ∷ q ∷ r ∷ ls) = last_two (q ∷ r ∷ ls)

module _ (fl : FloatArith) where
  open fl use {F, widen, narrow, of_int, add, mul, gt, add_d, div_d, one_d, neg_d, exp}

  pub perceptron : F → F
  perceptron z = if gt z (of_int 0) then of_int 1 else of_int 0

  pub re_lu : F → F
  re_lu z = if gt z (of_int 0) then z else of_int 0

  pub sigmoid : F → F
  sigmoid z = narrow (div_d one_d (add_d one_d (exp (neg_d (widen z)))))

  pub soft_max : F → F → F
  soft_max z softmaxsum = narrow (div_d (exp (widen z)) (widen softmaxsum))

  -- The loop over the weights of a neuron, which walks along the neurons before it.
  pub weighted_sum : ℕ → F → List F → List (Neuron F) → Option F
  weighted_sum zero z ws ps = some z
  weighted_sum (suc j) z [] ps = none
  weighted_sum (suc j) z (w ∷ ws) [] = none
  weighted_sum (suc j) z (w ∷ ws) (p ∷ ps) =
      weighted_sum j (add z (mul w p.activationfunctionvalue)) ws ps

  -- `Z = 0; Z += bias;` and the loop.
  unfoldable pub pre_activation : List (Neuron F) → Neuron F → Option F
  pre_activation ps n = weighted_sum (rounds n.weights) (add (of_int 0) n.bias) n.weight_list ps

  -- The loop of the case `SOFTMAX` over the neurons of the last layer.
  unfoldable pub softmax_sum : ℕ → F → List (Neuron F) → List (Neuron F) → Option F
  softmax_sum zero s ps ns = some s
  softmax_sum (suc i) s ps [] = none
  softmax_sum (suc i) s ps (n ∷ ns) = do
    z ← pre_activation ps n
    softmax_sum i (narrow (add_d (widen s) (exp (widen z)))) ps ns

  unfoldable pub softmax : List (Layer F) → F → Option F
  softmax ls z = do
    (previous, last) ← last_two ls
    s ← softmax_sum (rounds last.neurons) (of_int 0) previous.neuron_list last.neuron_list
    some (soft_max z s)

  -- The network is given by its layers.
  pub activation_function_calculaton : List (Layer F) → F → ℕ → Option F
  activation_function_calculaton ls z activationfunctiontype =
      if activationfunctiontype == 1
      then some (perceptron z)
      else if activationfunctiontype == 2
      then some (re_lu z)
      else if activationfunctiontype == 3
      then some (sigmoid z)
      else if activationfunctiontype == 4
      then softmax ls z
      else some (of_int 0)
