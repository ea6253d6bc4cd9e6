-- ===== src/Device/Training/Epochs.antt =====
-- The epochs of the training, one after the other.
use esp32_fl.Base.{
  ℕ, zero, suc, ◌≡◌, refl, ap, ◌∙◌, Option, none, some, inl, inr, List, [], ◌∷◌, length,
  Option-cases, rounds,
}
use esp32_fl.Float.{FloatArith}
use esp32_fl.Network.{NeuralNetwork}
use esp32_fl.Network.Forward.Reference.{IsNetwork}
use esp32_fl.Network.Metrics.{sample_size, stack_array}
use esp32_fl.Network.Metrics.Runs.{length-stack_array}
use esp32_fl.Device.Training.{DataSet, train_epochs, neural_network_training}
use esp32_fl.Device.Training.Runs.{IsTrainable, SameShape, IsTrainable-same, train_rows_lem}

-- How many of the epochs find the data set, up to the first that does not.
abbrev pub opened {ℓ} : {A : Type ℓ} → ℕ → ℕ → (ℕ → Option A) → ℕ
opened zero cycle rows = 0
opened (suc k) cycle rows = elim (rows cycle) [
  | none ↦ 0
  | some _ ↦ suc (opened k (suc cycle) rows)
]

module _ (fl : FloatArith) (x : FloatArith.F fl) where
  open fl use {F, of_int}

  record TrainedEpochs (k cycle : ℕ) (dataset : DataSet F) (sample : List F) (nn : NeuralNetwork F)
      : Type 0 where
    nn' : NeuralNetwork F
    errors : List F
    runs : train_epochs fl k cycle dataset sample nn ≡ some (nn', errors)
    same : SameShape fl x nn nn'
    counted : length errors ≡ opened k cycle dataset.rows

  train_epochs_lem :
      (size k cycle : ℕ) (dataset : DataSet F) (sample : List F) (nn : NeuralNetwork F)
      → IsTrainable size nn
      → length sample ≡ size
      → TrainedEpochs k cycle dataset sample nn
  unfolding train_epochs
  train_epochs_lem size zero cycle dataset sample nn r l = record {
    nn' = nn;
    errors = [];
    runs = refl;
    same = refl;
    counted = refl;
  }
  train_epochs_lem size (suc k) cycle dataset sample nn r l =
      elim (Option-cases (dataset.rows cycle)) [
        | inl missing ↦ record {
          nn' = nn;
          errors = [];
          runs = rw (missing, train_epochs);
          same = refl;
          counted = rw (missing, opened);
        }
        | inr (rows, found) ↦
            let one =
              train_rows_lem fl x size (rounds nn.percentualtraining) rows sample nn (of_int 0) r
                l in
            let rest =
              train_epochs_lem size k (suc cycle) dataset one.sample' one.nn'
                (IsTrainable-same fl x size nn one.nn' one.same r) one.keeps in
            record {
              nn' = rest.nn';
              errors = one.error' ∷ rest.errors;
              runs = rw (found, train_epochs) (rw (one.runs, rest.runs));
              same = one.same ∙ rest.same;
              counted = rw (found, opened) (ap suc rest.counted);
            }
      ]

  -- What `NeuralNetworkTraining` leaves behind: a network of the same shape, and one loss for each
  -- epoch up to the first that cannot open the data set.
  pub record Trained (dataset : DataSet F) (nn : NeuralNetwork F) : Type 0 where
    pub nn' : NeuralNetwork F
    pub errors : List F
    pub runs : neural_network_training fl dataset nn ≡ some (nn', errors)
    pub network : IsNetwork nn'
    pub same : SameShape fl x nn nn'
    pub counted : length errors ≡ opened (rounds nn.epoch) 0 dataset.rows

  -- On a well-formed network whose hidden layers are equally wide and whose inputs and outputs fit
  -- the array, which has room for the seven numbers of a row, `NeuralNetworkTraining` runs through
  -- for every data set: it computes one loss for each epoch up to the first that cannot open the
  -- file, and the network stays well formed and keeps its counts, its kinds and its chains.
  pub neural_network_training-Trained :
      (dataset : DataSet F) (nn : NeuralNetwork F) (size : ℕ)
      → sample_size nn ≡ some size
      → IsTrainable size nn
      → Trained dataset nn
  unfolding neural_network_training
  neural_network_training-Trained dataset nn size e r =
      let done =
        train_epochs_lem size (rounds nn.epoch) 0 dataset (stack_array dataset.stack 0 size) nn r
          (length-stack_array fl 0 size dataset.stack) in
      record {
        nn' = done.nn';
        errors = done.errors;
        runs = rw (e, done.runs);
        network = (IsTrainable-same fl x size nn done.nn' done.same r).network;
        same = done.same;
        counted = done.counted;
      }
