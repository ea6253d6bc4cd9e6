-- ===== src/Network/Metrics.antt =====
-- `PerformanceMetrics` of the server's federatedlearning.c, as far as it changes the network and
-- counts; what it prints is left out.
pub mod Size
pub mod Row
pub mod Runs
use esp32_fl.Base.{
  ℕ, zero, suc, ◌-◌, ◌^◌, Option, none, some, List, [], ◌∷◌, ◌==◌, if◌then◌else◌, ◌>>=◌, rounds,
  add_int, get_elem?,
}
use esp32_fl.Float.{FloatArith}
use esp32_fl.Network.{Neuron, Layer, NeuralNetwork}
use esp32_fl.Network.Sample.{read_row, last_layer}
use esp32_fl.Network.Forward.{feed_foward}

pub record Counts : Type 0 where
  pub total : ℕ
  pub truepositive : ℕ
  pub falsepositive : ℕ

-- The C library and the stack, as the evaluation meets them: the rows of the data set, if the
-- file can be opened, and what an array holds before it is written.
pub record Evaluation (F : Type 0) : Type 0 where
  pub rows : Option (List (List F))
  pub stack : ℕ → F

unfoldable pub stack_array : {F : Type 0} → (ℕ → F) → ℕ → ℕ → List F
stack_array stack i zero = []
stack_array stack i (suc n) = stack i ∷ stack_array stack (suc i) n

abbrev pub no_counts : Counts
no_counts = record { total = 0; truepositive = 0; falsepositive = 0 }

-- The length of the array `trainingsample`.
array_size : {F : Type 0} → List (Layer F) → Option ℕ
array_size ls = do
  first ← get_elem? ls 0
  last ← last_layer ls
  some (rounds (add_int first.neurons last.neurons))

unfoldable pub sample_size : {F : Type 0} → NeuralNetwork F → Option ℕ
unfolding array_size
sample_size nn = array_size nn.layer_list

module _ (fl : FloatArith) where
  open fl use {F, of_int, ge, eq}

  -- The loop over the last layer: the place of the last greatest value that is at least -1, and
  -- the place of the last label that is 1.
  pub find_max : ℕ → ℕ → F → ℕ → ℕ → List (Neuron F) → List F → Option (ℕ × ℕ)
  find_max zero i max arg_max class_idx ns ys = some (arg_max, class_idx)
  find_max (suc k) i max arg_max class_idx [] ys = none
  find_max (suc k) i max arg_max class_idx (n ∷ ns) [] = none
  find_max (suc k) i max arg_max class_idx (n ∷ ns) (y ∷ ys) =
      let a = n.activationfunctionvalue in
      let greater = ge a max in
      find_max k (suc i) (if greater then a else max) (if greater then i else arg_max)
        (if eq y (of_int 1) then i else class_idx) ns ys

  pub count_sample : ℕ × ℕ → Counts → Counts
  count_sample (arg_max, class_idx) c =
      let hit = arg_max == class_idx in
      record {
        total = add_int c.total 1;
        truepositive = if hit then add_int c.truepositive 1 else c.truepositive;
        falsepositive = if hit then c.falsepositive else add_int c.falsepositive 1;
      }

  -- One round of the loop over the rows.
  pub evaluate_row :
      List F → List F → NeuralNetwork F → Counts → Option (List F × NeuralNetwork F × Counts)
  evaluate_row row sample nn c = do
    (sample', ys, nn₁) ← read_row row sample nn
    nn₂ ← feed_foward fl nn₁
    last ← last_layer nn₂.layer_list
    places ← find_max (rounds last.neurons) 0 (of_int (2 ^ 32 - 1)) 0 0 last.neuron_list ys
    some (sample', nn₂, count_sample places c)

  pub evaluate_rows :
      ℕ → List (List F) → List F → NeuralNetwork F → Counts → Option (NeuralNetwork F × Counts)
  evaluate_rows zero rows sample nn c = some (nn, c)
  evaluate_rows (suc k) [] sample nn c = do
    (sample', nn', c') ← evaluate_row [] sample nn c
    evaluate_rows k [] sample' nn' c'
  evaluate_rows (suc k) (row ∷ rows) sample nn c = do
    (sample', nn', c') ← evaluate_row row sample nn c
    evaluate_rows k rows sample' nn' c'

  pub performance_metrics : Evaluation F → NeuralNetwork F → ℕ → Option (NeuralNetwork F × Counts)
  performance_metrics env nn percentualevaluation = do
    size ← sample_size nn
    elim env.rows [
      | none ↦ some (nn, no_counts)
      | some rows ↦
          evaluate_rows (rounds percentualevaluation) rows (stack_array env.stack 0 size) nn
            no_counts
    ]
