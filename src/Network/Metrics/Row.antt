-- ===== src/Network/Metrics/Row.antt =====
-- One round of the evaluation.
use esp32_fl.Base.{
  ℕ, zero, suc, ◌+◌, ◌≤◌, ◌<◌, ◌≡◌, ◌^◌, ◌-◌, refl, sym, ◌∙◌, some, List, [], ◌∷◌, arith, length,
  rounds, int_mod,
}
use esp32_fl.Float.{FloatArith}
use esp32_fl.Network.{Neuron, Layer, NeuralNetwork}
use esp32_fl.Network.Sample.{last_layer, read_row}
use esp32_fl.Network.Sample.Total.{read_row_lem}
use esp32_fl.Network.Ends.{count_io, count_io_congr, count_out_congr, FitsLayers-Ends}
use esp32_fl.Network.Values.{frozen_neuron, frozen, IsNetwork_congr, forward-frozen}
use esp32_fl.Network.Forward.{feed_foward}
use esp32_fl.Network.Forward.Reference.{IsNetwork, forward}
use esp32_fl.Network.Forward.Correct.{feed_foward-forward}
use esp32_fl.Network.Metrics.{Counts, find_max, count_sample, evaluate_row}

-- Every row is a hit or a miss.
abbrev pub Balanced : Counts → Type 0
Balanced c = c.truepositive + c.falsepositive ≡ c.total

module _ (fl : FloatArith) where
  open fl use {F, of_int}

  pub find_max_total :
      (k i : ℕ) (max : F) (am ci : ℕ) (ns : List (Neuron F)) (ys : List F)
      → k ≡ length ns
      → length ys ≡ k
      → (places : ℕ × ℕ) × (find_max fl k i max am ci ns ys ≡ some places)
  unfolding find_max
  find_max_total zero i max am ci ns ys h e = ((am, ci), refl)
  find_max_total (suc k) i max am ci [] ys h e = absurd (omega arith)
  find_max_total (suc k) i max am ci (n ∷ ns) [] h e = absurd (omega arith)
  find_max_total (suc k) i max am ci (n ∷ ns) (y ∷ ys) h e =
      find_max_total k (suc i) _ _ _ ns ys (omega arith) (omega arith)

  pub count_sample-Balanced :
      (places : ℕ × ℕ) (c : Counts)
      → Balanced c
      → c.total + 1 < int_mod
      → Balanced (count_sample fl places c) × ((count_sample fl places c).total ≡ c.total + 1)
  unfolding count_sample
  count_sample-Balanced (am, ci) c b h = ground arith

  -- A network that is well formed and small enough for the array, up to its values.
  pub record IsReady (x : F) (size : ℕ) (nn₀ nn : NeuralNetwork F) : Type 0 where
    pub network : IsNetwork nn
    pub room : count_io nn ≤ size
    pub same : frozen x nn ≡ frozen x nn₀

  pub IsReady-same :
      (x : F) (size : ℕ) (nn₀ a b : NeuralNetwork F)
      → IsReady x size nn₀ a
      → frozen x b ≡ frozen x a
      → IsReady x size nn₀ b
  IsReady-same x size nn₀ a b r e = record {
    network = IsNetwork_congr x a b (sym e) r.network;
    room = omega (arith, r.room, count_io_congr (frozen_neuron x) b a e);
    same = e ∙ r.same;
  }

  pub evaluate_row-runs :
      (row sample s ys : List F) (nn nn₁ nn₂ : NeuralNetwork F) (last : Layer F) (c : Counts)
      (places : ℕ × ℕ)
      → read_row row sample nn ≡ some (s, ys, nn₁)
      → feed_foward fl nn₁ ≡ some nn₂
      → last_layer nn₂.layer_list ≡ some last
      → find_max fl (rounds last.neurons) 0 (of_int (2 ^ 32 - 1)) 0 0 last.neuron_list ys
        ≡ some places
      → evaluate_row fl row sample nn c ≡ some (s, nn₂, count_sample fl places c)
  unfolding evaluate_row
  evaluate_row-runs row sample s ys nn nn₁ nn₂ last c places er ef el em = rw (er, ef, el, em)

  pub record Evaluated (x : F) (size : ℕ) (nn₀ : NeuralNetwork F) (row sample : List F)
      (nn : NeuralNetwork F) (c : Counts) : Type 0 where
    pub sample' : List F
    pub nn' : NeuralNetwork F
    pub c' : Counts
    pub runs : evaluate_row fl row sample nn c ≡ some (sample', nn', c')
    pub ready : IsReady x size nn₀ nn'
    pub keeps : length sample' ≡ size
    pub balanced : Balanced c'
    pub counted : c'.total ≡ c.total + 1

  pub evaluate_row-Evaluated :
      (x : F) (size : ℕ) (nn₀ : NeuralNetwork F) (row sample : List F) (nn : NeuralNetwork F)
      (c : Counts)
      → IsReady x size nn₀ nn
      → 7 ≤ size
      → length sample ≡ size
      → Balanced c
      → c.total + 1 < int_mod
      → Evaluated x size nn₀ row sample nn c
  evaluate_row-Evaluated x size nn₀ row sample nn c r h l b small =
      let ends = FitsLayers-Ends nn.layers nn.layer_list r.network in
      let read =
        read_row_lem x row sample nn ends.first ends.last ends.rest ends.starts ends.finishes
          (omega arith) (omega (arith, ends.counted_in, ends.counted_out, r.room))
          (omega (arith, ends.inputs)) in
      let fed : NeuralNetwork F = record read.nn' { layer_list = forward fl read.nn'.layer_list } in
      let before = IsReady-same x size nn₀ nn read.nn' r read.same in
      let values : frozen x fed ≡ frozen x read.nn' = forward-frozen fl x read.nn' in
      let after = IsReady-same x size nn₀ read.nn' fed before values in
      let ends' = FitsLayers-Ends fed.layers fed.layer_list after.network in
      let as_many : rounds ends'.last.neurons ≡ rounds ends.last.neurons = omega (
        arith,
        ends.counted_out,
        ends'.counted_out,
        count_out_congr (frozen_neuron x) fed nn (values ∙ read.same),
      ) in
      let (places, found) =
        find_max_total (rounds ends'.last.neurons) 0 (of_int (2 ^ 32 - 1)) 0 0
          ends'.last.neuron_list read.ys ends'.outputs (omega (arith, as_many, read.even)) in
      let (balance, count) = count_sample-Balanced places c b small in
      record {
        sample' = read.sample';
        nn' = fed;
        c' = count_sample fl places c;
        runs =
            evaluate_row-runs row sample read.sample' read.ys nn read.nn' fed ends'.last c places
              read.runs (feed_foward-forward fl read.nn' before.network) ends'.finishes found;
        ready = after;
        keeps = omega (arith, read.keeps);
        balanced = balance;
        counted = count;
      }
