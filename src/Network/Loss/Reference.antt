-- ===== src/Network/Loss/Reference.antt =====
-- What the losses are to compute, with no loop state.
use mathlib.Core.List.{foldl-append}
use esp32_fl.Base.{
  ℕ, zero, suc, ◌≡◌, refl, sym, ◌∙◌, ap, some, List, [], ◌∷◌, map, foldl, arith, ◌==◌,
  if◌then◌else◌, length, length-map, concat_map, rounds,
}
use esp32_fl.Float.{FloatArith}
use esp32_fl.Network.{Neuron, Layer, NeuralNetwork}
use esp32_fl.Network.Sample.{last_layer}
use esp32_fl.Network.Loss.{
  add_entropy, entropy_sum, categorical_cross_entropy, sum_weights, sum_neurons, sum_layers,
  add_square, add_absolute, ridge_regression_calculation, lasso_regression_calculation, output_data,
  loss_function_calculation,
}

module _ (fl : FloatArith) where
  open fl use {F, of_int, add, mul, neg}

  abbrev pub layer_weights : Layer F → List F
  layer_weights l = concat_map Neuron.weight_list l.neuron_list

  -- All weights of a network, in order.
  abbrev pub all_weights : NeuralNetwork F → List F
  all_weights nn = concat_map layer_weights nn.layer_list

  -- The terms of the entropy, added from the left.
  abbrev pub fold_entropy : F → List F → List F → F
  fold_entropy sum [] os = sum
  fold_entropy sum (y ∷ ys) [] = sum
  fold_entropy sum (y ∷ ys) (o ∷ os) = fold_entropy (add_entropy fl sum y o) ys os

  abbrev pub penalty : (F → F → F) → NeuralNetwork F → F → F
  penalty f nn lambda = mul (foldl f (of_int 0) (all_weights nn)) lambda

  -- The loss for the labels and the values of the last layer.
  abbrev pub loss : NeuralNetwork F → List F → List F → ℕ → F → F
  loss nn labels values regularization lambda =
      let cross = neg (fold_entropy (of_int 0) labels values) in
      if nn.lossfunctiontype == 2
      then (if regularization == 0
          then cross
          else if regularization == 1
          then add cross (penalty (add_absolute fl) nn lambda)
          else if regularization == 2
          then add cross (penalty (add_square fl) nn lambda)
          else of_int 0)
      else of_int 0

  sum_weights-foldl :
      (f : F → F → F) (sum : F) (ws : List F) → sum_weights fl f sum ws ≡ foldl f sum ws
  unfolding sum_weights
  sum_weights-foldl f sum [] = refl
  sum_weights-foldl f sum (w ∷ ws) = sum_weights-foldl f (f sum w) ws

  sum_neurons-foldl :
      (f : F → F → F) (sum : F) (ns : List (Neuron F))
      → sum_neurons fl f sum ns ≡ foldl f sum (concat_map Neuron.weight_list ns)
  unfolding sum_neurons
  sum_neurons-foldl f sum [] = refl
  sum_neurons-foldl f sum (n ∷ ns) =
      sum_neurons-foldl f (sum_weights fl f sum n.weight_list) ns
      ∙ ap (λ z. foldl f z (concat_map Neuron.weight_list ns))
          (sum_weights-foldl f sum n.weight_list)
      ∙ sym (foldl-append f sum n.weight_list (concat_map Neuron.weight_list ns))

  sum_layers-foldl :
      (f : F → F → F) (sum : F) (ls : List (Layer F))
      → sum_layers fl f sum ls ≡ foldl f sum (concat_map layer_weights ls)
  unfolding sum_layers
  sum_layers-foldl f sum [] = refl
  sum_layers-foldl f sum (l ∷ ls) =
      sum_layers-foldl f (sum_neurons fl f sum l.neuron_list) ls
      ∙ ap (λ z. foldl f z (concat_map layer_weights ls)) (sum_neurons-foldl f sum l.neuron_list)
      ∙ sym (foldl-append f sum (layer_weights l) (concat_map layer_weights ls))

  entropy_sum-fold :
      (k : ℕ) (sum : F) (ys os : List F)
      → length ys ≡ k
      → length os ≡ k
      → entropy_sum fl k sum ys os ≡ some (fold_entropy sum ys os)
  unfolding entropy_sum
  entropy_sum-fold zero sum [] os e d = refl
  entropy_sum-fold zero sum (y ∷ ys) os e d = absurd (omega arith)
  entropy_sum-fold (suc k) sum [] os e d = absurd (omega arith)
  entropy_sum-fold (suc k) sum (y ∷ ys) [] e d = absurd (omega arith)
  entropy_sum-fold (suc k) sum (y ∷ ys) (o ∷ os) e d =
      entropy_sum-fold k (add_entropy fl sum y o) ys os (omega arith) (omega arith)

  output_data-map :
      (k : ℕ) (ns : List (Neuron F))
      → k ≡ length ns
      → output_data fl k ns ≡ some (map Neuron.activationfunctionvalue ns)
  unfolding output_data
  output_data-map zero [] e = refl
  output_data-map zero (n ∷ ns) e = absurd (omega arith)
  output_data-map (suc k) [] e = absurd (omega arith)
  output_data-map (suc k) (n ∷ ns) e = rw (output_data-map k ns (omega arith))

  ridge-penalty :
      (nn : NeuralNetwork F) (lambda : F)
      → ridge_regression_calculation fl nn lambda ≡ penalty (add_square fl) nn lambda
  unfolding ridge_regression_calculation
  ridge-penalty nn lambda =
      ap (λ z. mul z lambda) (sum_layers-foldl (add_square fl) (of_int 0) nn.layer_list)

  lasso-penalty :
      (nn : NeuralNetwork F) (lambda : F)
      → lasso_regression_calculation fl nn lambda ≡ penalty (add_absolute fl) nn lambda
  unfolding lasso_regression_calculation
  lasso-penalty nn lambda =
      ap (λ z. mul z lambda) (sum_layers-foldl (add_absolute fl) (of_int 0) nn.layer_list)

  cross-fold :
      (labels values : List F) (n : ℕ)
      → length labels ≡ rounds n
      → length values ≡ rounds n
      → categorical_cross_entropy fl labels values n
        ≡ some (neg (fold_entropy (of_int 0) labels values))
  unfolding categorical_cross_entropy
  cross-fold labels values n e d = rw (entropy_sum-fold (rounds n) (of_int 0) labels values e d)

  -- Where the count of the last layer is that of its chain and there is a label for each of its
  -- neurons, the loss is the negated sum of the labels' entropies, and with L1 or L2 the sum of the
  -- absolute values or squares of all weights times lambda is added to it; for another loss
  -- function or regularization it is 0.
  pub loss_function_calculation_lem :
      (nn : NeuralNetwork F) (labels : List F) (last : Layer F) (regularization : ℕ) (lambda : F)
      → last_layer nn.layer_list ≡ some last
      → rounds last.neurons ≡ length last.neuron_list
      → length labels ≡ length last.neuron_list
      → loss_function_calculation fl nn labels regularization lambda
        ≡ some (
            loss nn labels
              (map Neuron.activationfunctionvalue last.neuron_list)
              regularization
              lambda)
  unfolding loss_function_calculation
  loss_function_calculation_lem nn labels last regularization lambda found count labelled =
      let values = map Neuron.activationfunctionvalue last.neuron_list in
      let width : length values ≡ rounds last.neurons =
        omega (arith, count, length-map last.neuron_list Neuron.activationfunctionvalue) in
      let cross = cross-fold labels values last.neurons (omega (arith, count, labelled)) width in
      rw
        (
          found,
          output_data-map (rounds last.neurons) last.neuron_list count,
          cross,
          ridge-penalty nn lambda,
          lasso-penalty nn lambda,
        )
        (ground arith)
