-- ===== src/Device/Training/Runs.antt =====
-- The training runs through and keeps the shape of the network.
use esp32_fl.Base.{
  ℕ, zero, suc, ◌≤◌, ◌≡◌, refl, sym, ap, ◌∙◌, some, List, [], ◌∷◌, map, arith, length, length-map,
}
use esp32_fl.Float.{FloatArith}
use esp32_fl.Network.{Neuron, Layer, NeuralNetwork}
use esp32_fl.Network.Params.{blank_neuron}
use esp32_fl.Network.Remap
use esp32_fl.Network.Remap.{remap_layer, remap}
use esp32_fl.Network.Values.{frozen_neuron, frozen, forward-frozen}
use esp32_fl.Network.Sample.{read_row}
use esp32_fl.Network.Sample.Total.{read_row_lem}
use esp32_fl.Network.Ends.{count_io, count_io_congr, count_out_congr, FitsLayers-Ends}
use esp32_fl.Network.Forward.{feed_foward}
use esp32_fl.Network.Forward.Reference.{IsNetwork, forward}
use esp32_fl.Network.Forward.Correct.{feed_foward-forward}
use esp32_fl.Network.Loss.{loss_function_calculation}
use esp32_fl.Network.Loss.Reference.{loss_function_calculation_lem}
use esp32_fl.Device.BackPropagation.{from_last, back_propagation}
use esp32_fl.Device.BackPropagation.Reference.{trained, SameBefore}
use esp32_fl.Device.BackPropagation.Correct.{back_propagation-trained}
use esp32_fl.Device.BackPropagation.Shape.{SameBefore-congr, Labelled-last, blank-trained}
use esp32_fl.Device.Training.{train_row, train_rows}

-- A network that can be trained with an array of `size` places: it is well formed, its hidden
-- layers are equally wide, and the numbers of a row, its inputs and its outputs fit the array.
pub record IsTrainable {F : Type 0} (size : ℕ) (nn : NeuralNetwork F) : Type 0 where
  pub network : IsNetwork nn
  pub even : SameBefore (from_last nn.layer_list [])
  pub room : count_io nn ≤ size
  pub wide : 7 ≤ size

module _ (fl : FloatArith) (x : FloatArith.F fl) where
  open fl use {F, of_int, add}

  abbrev pub SameShape : NeuralNetwork F → NeuralNetwork F → Type 0
  SameShape a b = remap (blank_neuron x) a ≡ remap (blank_neuron x) b

  pub IsTrainable-same :
      (size : ℕ) (a b : NeuralNetwork F) → SameShape a b → IsTrainable size a → IsTrainable size b
  IsTrainable-same size a b e h =
      let g = blank_neuron x in
      record {
        network =
            Remap.IsNetwork_congr g (λ n. (refl, length-map n.weight_list (λ _. x))) a b e
              h.network;
        even = SameBefore-congr g a b e h.even;
        room = omega (arith, h.room, count_io_congr g a b e);
        wide = h.wide;
      }

  blank-frozen_neurons :
      (ns : List (Neuron F))
      → map (blank_neuron x) (map (frozen_neuron x) ns) ≡ map (blank_neuron x) ns
  blank-frozen_neurons [] = refl
  blank-frozen_neurons (n ∷ ns) = rw (blank-frozen_neurons ns)

  blank-frozen_layers :
      (ls : List (Layer F))
      → map (remap_layer (blank_neuron x)) (map (remap_layer (frozen_neuron x)) ls)
        ≡ map (remap_layer (blank_neuron x)) ls
  blank-frozen_layers [] = refl
  blank-frozen_layers (l ∷ ls) = rw (blank-frozen_neurons l.neuron_list, blank-frozen_layers ls)

  blank-frozen : (nn : NeuralNetwork F) → SameShape (frozen x nn) nn
  blank-frozen nn = ap (λ ls. record nn { layer_list = ls }) (blank-frozen_layers nn.layer_list)

  pub frozen-same : (a b : NeuralNetwork F) → frozen x a ≡ frozen x b → SameShape a b
  frozen-same a b e = sym (blank-frozen a) ∙ ap (remap (blank_neuron x)) e ∙ blank-frozen b

  train_row-runs :
      (row sample s ys : List F) (nn nn₁ nn₂ nn₃ : NeuralNetwork F) (error z : F)
      → read_row row sample nn ≡ some (s, ys, nn₁)
      → feed_foward fl nn₁ ≡ some nn₂
      → loss_function_calculation fl nn₂ ys nn₂.regularization nn₂.lambda ≡ some z
      → back_propagation fl nn₂ ys nn₂.alpha nn₂.regularization nn₂.lambda ≡ some nn₃
      → train_row fl row sample nn error ≡ some (s, nn₃, add error z)
  unfolding train_row
  train_row-runs row sample s ys nn nn₁ nn₂ nn₃ error z er ef el eb = rw (er, ef, el, eb)

  -- What training on one row leaves behind.
  record TrainedRow (size : ℕ) (row sample : List F) (nn : NeuralNetwork F) (error : F)
      : Type 0 where
    sample' : List F
    nn' : NeuralNetwork F
    error' : F
    runs : train_row fl row sample nn error ≡ some (sample', nn', error')
    same : SameShape nn nn'
    keeps : length sample' ≡ size

  train_row_lem :
      (size : ℕ) (row sample : List F) (nn : NeuralNetwork F) (error : F)
      → IsTrainable size nn
      → length sample ≡ size
      → TrainedRow size row sample nn error
  train_row_lem size row sample nn error r l =
      let ends = FitsLayers-Ends nn.layers nn.layer_list r.network in
      let read =
        read_row_lem x row sample nn ends.first ends.last ends.rest ends.starts ends.finishes
          (omega (arith, r.wide)) (omega (arith, ends.counted_in, ends.counted_out, r.room))
          (omega (arith, ends.inputs)) in
      let fed : NeuralNetwork F = record read.nn' { layer_list = forward fl read.nn'.layer_list } in
      let before = IsTrainable-same size nn read.nn' (frozen-same nn read.nn' (sym read.same)) r in
      let values : frozen x fed ≡ frozen x read.nn' = forward-frozen fl x read.nn' in
      let shape = frozen-same nn fed (sym (values ∙ read.same)) in
      let after = IsTrainable-same size nn fed shape r in
      let ends' = FitsLayers-Ends fed.layers fed.layer_list after.network in
      let labelled : length read.ys ≡ length ends'.last.neuron_list = omega (
        arith,
        read.even,
        ends'.outputs,
        ends.counted_out,
        ends'.counted_out,
        count_out_congr (frozen_neuron x) fed nn (values ∙ read.same),
      ) in
      let labels = Labelled-last read.ys ends'.last fed.layer_list ends'.finishes labelled in
      let nn₃ = trained fl fed.alpha fed.regularization fed.lambda fed read.ys in
      record {
        sample' = read.sample';
        nn' = nn₃;
        error' = _;
        runs =
            train_row-runs row sample read.sample' read.ys nn read.nn' fed nn₃ error _ read.runs
              (feed_foward-forward fl read.nn' before.network)
              (loss_function_calculation_lem fl fed read.ys ends'.last fed.regularization fed.lambda
                ends'.finishes ends'.outputs labelled)
              (back_propagation-trained fl fed read.ys fed.alpha fed.regularization fed.lambda
                after.network after.even labels);
        same =
            shape
            ∙ sym (
                blank-trained fl fed.alpha fed.regularization fed.lambda x fed read.ys after.network
                  labels);
        keeps = omega (arith, read.keeps, l);
      }

  pub record TrainedRows (size k : ℕ) (rows : List (List F)) (sample : List F)
      (nn : NeuralNetwork F) (error : F) : Type 0 where
    pub sample' : List F
    pub nn' : NeuralNetwork F
    pub error' : F
    pub runs : train_rows fl k rows sample nn error ≡ some (sample', nn', error')
    pub same : SameShape nn nn'
    pub keeps : length sample' ≡ size

  pub train_rows_lem :
      (size k : ℕ) (rows : List (List F)) (sample : List F) (nn : NeuralNetwork F) (error : F)
      → IsTrainable size nn
      → length sample ≡ size
      → TrainedRows size k rows sample nn error
  unfolding train_rows
  train_rows_lem size zero rows sample nn error r l = record {
    sample' = sample;
    nn' = nn;
    error' = error;
    runs = refl;
    same = refl;
    keeps = l;
  }
  train_rows_lem size (suc k) [] sample nn error r l =
      let one = train_row_lem size [] sample nn error r l in
      let rest =
        train_rows_lem size k [] one.sample' one.nn' one.error'
          (IsTrainable-same size nn one.nn' one.same r) one.keeps in
      record {
        sample' = rest.sample';
        nn' = rest.nn';
        error' = rest.error';
        runs = rw (one.runs, rest.runs);
        same = one.same ∙ rest.same;
        keeps = rest.keeps;
      }
  train_rows_lem size (suc k) (row ∷ rows) sample nn error r l =
      let one = train_row_lem size row sample nn error r l in
      let rest =
        train_rows_lem size k rows one.sample' one.nn' one.error'
          (IsTrainable-same size nn one.nn' one.same r) one.keeps in
      record {
        sample' = rest.sample';
        nn' = rest.nn';
        error' = rest.error';
        runs = rw (one.runs, rest.runs);
        same = one.same ∙ rest.same;
        keeps = rest.keeps;
      }
