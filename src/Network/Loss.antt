-- ===== src/Network/Loss.antt =====
-- The losses and the penalties on the weights of the server's federatedlearning.c.
pub mod Reference
use esp32_fl.Base.{
  ℕ, zero, suc, Option, none, some, List, [], ◌∷◌, ◌==◌, if◌then◌else◌, ◌>>=◌, rounds,
}
use esp32_fl.Float.{FloatArith}
use esp32_fl.Network.{Neuron, Layer, NeuralNetwork}
use esp32_fl.Network.Sample.{last_layer}

module _ (fl : FloatArith) where
  open fl use {F, widen, narrow, of_int, add, mul, neg, ge, add_d, mul_d, log}

  -- One round of the loop over the labels: the sum is a `float`, the product a `double`.
  abbrev pub add_entropy : F → F → F → F
  add_entropy sum label output =
      narrow (add_d (widen sum) (mul_d (widen label) (log (widen output))))

  -- The loop; `none` is a read past one of the arrays.
  pub entropy_sum : ℕ → F → List F → List F → Option F
  entropy_sum zero sum ys os = some sum
  entropy_sum (suc i) sum [] os = none
  entropy_sum (suc i) sum (y ∷ ys) [] = none
  entropy_sum (suc i) sum (y ∷ ys) (o ∷ os) = entropy_sum i (add_entropy sum y o) ys os

  pub categorical_cross_entropy : List F → List F → ℕ → Option F
  categorical_cross_entropy label output labelsize = do
    sum ← entropy_sum (rounds labelsize) (of_int 0) label output
    some (neg sum)

  -- The loops over the weights of a neuron, the neurons of a layer and the layers.
  pub sum_weights : (F → F → F) → F → List F → F
  sum_weights f sum [] = sum
  sum_weights f sum (w ∷ ws) = sum_weights f (f sum w) ws

  pub sum_neurons : (F → F → F) → F → List (Neuron F) → F
  sum_neurons f sum [] = sum
  sum_neurons f sum (n ∷ ns) = sum_neurons f (sum_weights f sum n.weight_list) ns

  pub sum_layers : (F → F → F) → F → List (Layer F) → F
  sum_layers f sum [] = sum
  sum_layers f sum (l ∷ ls) = sum_layers f (sum_neurons f sum l.neuron_list) ls

  abbrev pub add_square : F → F → F
  add_square sum w = add sum (mul w w)

  abbrev pub add_absolute : F → F → F
  add_absolute sum w = if ge w (of_int 0) then add sum w else add sum (neg w)

  pub ridge_regression_calculation : NeuralNetwork F → F → F
  ridge_regression_calculation nn lambda =
      mul (sum_layers add_square (of_int 0) nn.layer_list) lambda

  pub lasso_regression_calculation : NeuralNetwork F → F → F
  lasso_regression_calculation nn lambda =
      mul (sum_layers add_absolute (of_int 0) nn.layer_list) lambda

  -- The loop that copies the values of the last layer.
  pub output_data : ℕ → List (Neuron F) → Option (List F)
  output_data zero ns = some []
  output_data (suc i) [] = none
  output_data (suc i) (n ∷ ns) = do rest ← output_data i ns; some (n.activationfunctionvalue ∷ rest)

  pub loss_function_calculation : NeuralNetwork F → List F → ℕ → F → Option F
  loss_function_calculation nn labelvector regularization lambda = do
    last ← last_layer nn.layer_list
    outputs ← output_data (rounds last.neurons) last.neuron_list
    let cross = categorical_cross_entropy labelvector outputs last.neurons
    if nn.lossfunctiontype == 2
        then (if regularization == 0
            then cross
            else if regularization == 1
            then (do c ← cross; some (add c (lasso_regression_calculation nn lambda)))
            else if regularization == 2
            then (do c ← cross; some (add c (ridge_regression_calculation nn lambda)))
            else some (of_int 0))
        else some (of_int 0)
