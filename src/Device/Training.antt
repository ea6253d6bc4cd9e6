-- ===== src/Device/Training.antt =====
-- `NeuralNetworkTraining` of the device's federatedlearning.c, with the losses that it prints for
-- its epochs as sums, before they are divided by the number of rows.
pub mod Runs
pub mod Epochs
use esp32_fl.Base.{ℕ, zero, suc, Option, none, some, List, [], ◌∷◌, ◌>>=◌, rounds}
use esp32_fl.Float.{FloatArith}
use esp32_fl.Network.{NeuralNetwork}
use esp32_fl.Network.Sample.{read_row}
use esp32_fl.Network.Metrics.{sample_size, stack_array}
use esp32_fl.Device.Functions.{feed_foward, loss_function_calculation}
use esp32_fl.Device.BackPropagation.{back_propagation}

-- What the training meets: the rows of the data set in each epoch, if the file can be opened then,
-- and what an array holds before it is written.
pub record DataSet (F : Type 0) : Type 0 where
  pub rows : ℕ → Option (List (List F))
  pub stack : ℕ → F

module _ (fl : FloatArith) where
  open fl use {F, of_int, add}

  -- One round of the loop over the rows.
  pub train_row : List F → List F → NeuralNetwork F → F → Option (List F × NeuralNetwork F × F)
  train_row row sample nn error = do
    (sample', label, nn₁) ← read_row row sample nn
    nn₂ ← feed_foward fl nn₁
    loss ← loss_function_calculation fl nn₂ label nn₂.regularization nn₂.lambda
    nn₃ ← back_propagation fl nn₂ label nn₂.alpha nn₂.regularization nn₂.lambda
    some (sample', nn₃, add error loss)

  -- A file that has ended leaves the row that was read last, which is cut at its first comma.
  pub train_rows :
      ℕ → List (List F) → List F → NeuralNetwork F → F → Option (List F × NeuralNetwork F × F)
  train_rows zero rows sample nn error = some (sample, nn, error)
  train_rows (suc k) [] sample nn error = do
    (sample', nn', error') ← train_row [] sample nn error
    train_rows k [] sample' nn' error'
  train_rows (suc k) (row ∷ rows) sample nn error = do
    (sample', nn', error') ← train_row row sample nn error
    train_rows k rows sample' nn' error'

  -- The loop over the epochs, which a file that cannot be opened ends.
  pub train_epochs :
      ℕ → ℕ → DataSet F → List F → NeuralNetwork F → Option (NeuralNetwork F × List F)
  train_epochs zero cycle dataset sample nn = some (nn, [])
  train_epochs (suc k) cycle dataset sample nn = elim (dataset.rows cycle) [
    | none ↦ some (nn, [])
    | some rows ↦ do
      (sample', nn', error) ← train_rows (rounds nn.percentualtraining) rows sample nn (of_int 0)
      (nn'', errors) ← train_epochs k (suc cycle) dataset sample' nn'
      some (nn'', error ∷ errors)
  ]

  pub neural_network_training : DataSet F → NeuralNetwork F → Option (NeuralNetwork F × List F)
  neural_network_training dataset nn = do
    size ← sample_size nn
    train_epochs (rounds nn.epoch) 0 dataset (stack_array dataset.stack 0 size) nn
