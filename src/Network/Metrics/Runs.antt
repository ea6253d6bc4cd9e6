-- ===== src/Network/Metrics/Runs.antt =====
-- The evaluation as a whole.
use esp32_fl.Base.{
  ℕ, zero, suc, ◌+◌, ◌≤◌, ◌<◌, ◌≡◌, refl, ap, some, List, [], ◌∷◌, arith, length, rounds, int_mod,
}
use esp32_fl.Float.{FloatArith}
use esp32_fl.Network.{NeuralNetwork}
use esp32_fl.Network.Ends.{count_io}
use esp32_fl.Network.Values.{frozen}
use esp32_fl.Network.Forward.Reference.{IsNetwork}
use esp32_fl.Network.Metrics.{
  Counts, Evaluation, stack_array, evaluate_rows, no_counts, sample_size, performance_metrics,
}
use esp32_fl.Network.Metrics.Row.{Balanced, IsReady, evaluate_row-Evaluated}

module _ (fl : FloatArith) where
  open fl use {F}

  -- The loop over the rows, for files that are shorter than the loop too.
  record Finished (x : F) (size : ℕ) (nn₀ : NeuralNetwork F) (k : ℕ) (rows : List (List F))
      (sample : List F) (nn : NeuralNetwork F) (c : Counts) : Type 0 where
    pub nn' : NeuralNetwork F
    pub c' : Counts
    pub runs : evaluate_rows fl k rows sample nn c ≡ some (nn', c')
    pub ready : IsReady fl x size nn₀ nn'
    pub balanced : Balanced c'
    pub counted : c'.total ≡ c.total + k

  evaluate_rows-Finished :
      (x : F) (size : ℕ) (nn₀ : NeuralNetwork F) (k : ℕ) (rows : List (List F)) (sample : List F)
      (nn : NeuralNetwork F) (c : Counts)
      → IsReady fl x size nn₀ nn
      → 7 ≤ size
      → length sample ≡ size
      → Balanced c
      → c.total + k < int_mod
      → Finished x size nn₀ k rows sample nn c
  unfolding evaluate_rows
  evaluate_rows-Finished x size nn₀ zero rows sample nn c r h l b small = record {
    nn' = nn;
    c' = c;
    runs = refl;
    ready = r;
    balanced = b;
    counted = omega arith;
  }
  evaluate_rows-Finished x size nn₀ (suc k) [] sample nn c r h l b small =
      let one = evaluate_row-Evaluated fl x size nn₀ [] sample nn c r h l b (omega arith) in
      let rest =
        evaluate_rows-Finished x size nn₀ k [] one.sample' one.nn' one.c' one.ready h one.keeps
          one.balanced (omega (arith, one.counted)) in
      record {
        nn' = rest.nn';
        c' = rest.c';
        runs = rw (one.runs, rest.runs);
        ready = rest.ready;
        balanced = rest.balanced;
        counted = omega (arith, one.counted, rest.counted);
      }
  evaluate_rows-Finished x size nn₀ (suc k) (row ∷ rows) sample nn c r h l b small =
      let one = evaluate_row-Evaluated fl x size nn₀ row sample nn c r h l b (omega arith) in
      let rest =
        evaluate_rows-Finished x size nn₀ k rows one.sample' one.nn' one.c' one.ready h one.keeps
          one.balanced (omega (arith, one.counted)) in
      record {
        nn' = rest.nn';
        c' = rest.c';
        runs = rw (one.runs, rest.runs);
        ready = rest.ready;
        balanced = rest.balanced;
        counted = omega (arith, one.counted, rest.counted);
      }

  pub length-stack_array : (i n : ℕ) (stack : ℕ → F) → length (stack_array stack i n) ≡ n
  unfolding stack_array
  length-stack_array i zero stack = refl
  length-stack_array i (suc n) stack = ap suc (length-stack_array (suc i) n stack)

  -- What `PerformanceMetrics` leaves behind where the data set can be opened: the network with
  -- other values alone, and one hit or miss for each round.
  pub record Measured (x : F) (env : Evaluation F) (nn : NeuralNetwork F) (n : ℕ) : Type 0 where
    pub nn' : NeuralNetwork F
    pub c : Counts
    pub runs : performance_metrics fl env nn n ≡ some (nn', c)
    pub network : IsNetwork nn'
    pub same : frozen x nn' ≡ frozen x nn
    pub total : c.total ≡ rounds n
    pub balanced : c.truepositive + c.falsepositive ≡ c.total

  -- On a well-formed network whose inputs and outputs fit the array, which has room for the seven
  -- numbers of a row, and for every data set that can be opened, however short,
  -- `PerformanceMetrics` runs through: it counts one hit or one miss for each round, and changes
  -- nothing of the network but values.
  pub performance_metrics-Measured :
      (x : F) (env : Evaluation F) (nn : NeuralNetwork F) (n size : ℕ) (rows : List (List F))
      → env.rows ≡ some rows
      → IsNetwork nn
      → sample_size nn ≡ some size
      → count_io nn ≤ size
      → 7 ≤ size
      → Measured x env nn n
  unfolding performance_metrics
  performance_metrics-Measured x env nn n size rows opened network e room h =
      let done =
        evaluate_rows-Finished x size nn (rounds n) rows (stack_array env.stack 0 size) nn no_counts
          (record { network = network; room = room; same = refl }) h
          (length-stack_array 0 size env.stack) refl (ground arith) in
      record {
        nn' = done.nn';
        c = done.c';
        runs = rw (e, opened, done.runs);
        network = done.ready.network;
        same = done.ready.same;
        total = omega (arith, done.counted);
        balanced = done.balanced;
      }
