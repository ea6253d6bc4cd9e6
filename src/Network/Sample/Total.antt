-- ===== src/Network/Sample/Total.antt =====
-- When reading a row runs through, and what it changes.
use esp32_fl.Base.{
  ℕ, zero, suc, ◌+◌, ◌≤◌, ◌≡◌, refl, ap, some, List, [], ◌∷◌, map, arith, set, length, length-set,
  get_elem?, rounds,
}
use esp32_fl.Network.{Neuron, Layer, NeuralNetwork}
use esp32_fl.Network.Sample.{read_fields, set_inputs, set_first, labels, last_layer, read_row}
use esp32_fl.Network.Values.{frozen_neuron, frozen}

module _ {F : Type 0} where
  read_fields_total :
      (left i : ℕ) (sample xs : List F)
      → left + i ≤ length sample
      → (r : List F) × (read_fields left i sample xs ≡ some r) × (length r ≡ length sample)
  unfolding read_fields
  read_fields_total zero i sample xs h = (sample, refl, refl)
  read_fields_total (suc left) i sample [] h = (sample, refl, refl)
  read_fields_total (suc left) i sample (x ∷ xs) h =
      let (r, e, l) =
        read_fields_total left (suc i) (set sample i x) xs (omega (arith, length-set sample i x)) in
      (r, ground arith, omega (arith, length-set sample i x))

  set_inputs_total :
      (x₀ : F) (k : ℕ) (xs : List F) (ns : List (Neuron F))
      → k ≤ length xs
      → k ≤ length ns
      → (r : List (Neuron F)) × (set_inputs k xs ns ≡ some r)
        × (map (frozen_neuron x₀) r ≡ map (frozen_neuron x₀) ns)
  unfolding set_inputs
  set_inputs_total x₀ zero xs ns h k = (ns, refl, refl)
  set_inputs_total x₀ (suc i) xs [] h k = absurd (omega arith)
  set_inputs_total x₀ (suc i) [] (n ∷ ns) h k = absurd (omega arith)
  set_inputs_total x₀ (suc i) (x ∷ xs) (n ∷ ns) h k =
      let (r, e, same) = set_inputs_total x₀ i xs ns (omega arith) (omega arith) in
      (record n { activationfunctionvalue = x } ∷ r, rw e, ap (◌∷◌ (frozen_neuron x₀ n)) same)

  get_elem?_total : (xs : List F) (i : ℕ) → suc i ≤ length xs → (x : F) × (get_elem? xs i ≡ some x)
  get_elem?_total [] i h = absurd (omega arith)
  get_elem?_total (x ∷ xs) zero h = (x, refl)
  get_elem?_total (x ∷ xs) (suc i) h = get_elem?_total xs i (omega arith)

  labels_total :
      (k i : ℕ) (sample : List F)
      → k + i ≤ length sample
      → (r : List F) × (labels k i sample ≡ some r) × (length r ≡ k)
  unfolding labels
  labels_total zero i sample h = ([], refl, refl)
  labels_total (suc k) i sample h =
      let (x, e) = get_elem?_total sample i (omega arith) in
      let (r, d, l) = labels_total k (suc i) sample (omega arith) in (x ∷ r, rw (e, d), ap suc l)

  read_row-runs :
      (row sample s ys : List F) (nn : NeuralNetwork F) (first last : Layer F)
      (rest : List (Layer F)) (ns : List (Neuron F))
      → nn.layer_list ≡ first ∷ rest
      → last_layer nn.layer_list ≡ some last
      → read_fields 7 0 sample row ≡ some s
      → set_inputs (rounds first.neurons) s first.neuron_list ≡ some ns
      → labels (rounds last.neurons) (rounds first.neurons) s ≡ some ys
      → read_row row sample nn
        ≡ some (s, ys, record nn { layer_list = record first { neuron_list = ns } ∷ rest })
  unfolding read_row set_first
  read_row-runs row sample s ys nn first last rest ns e el es en ey = rw (es, el, e, en, ey)

  frozen-first :
      (x₀ : F) (nn : NeuralNetwork F) (first : Layer F) (rest : List (Layer F))
      (ns : List (Neuron F))
      → nn.layer_list ≡ first ∷ rest
      → map (frozen_neuron x₀) ns ≡ map (frozen_neuron x₀) first.neuron_list
      → frozen x₀ (record nn { layer_list = record first { neuron_list = ns } ∷ rest })
        ≡ frozen x₀ nn
  frozen-first x₀ nn first rest ns e same = rw (e, same)

  -- What a row leaves behind.
  pub record Read (x₀ : F) (row sample : List F) (k : ℕ) (nn : NeuralNetwork F) : Type 0 where
    pub sample' : List F
    pub ys : List F
    pub nn' : NeuralNetwork F
    pub runs : read_row row sample nn ≡ some (sample', ys, nn')
    pub same : frozen x₀ nn' ≡ frozen x₀ nn
    pub keeps : length sample' ≡ length sample
    pub even : length ys ≡ k

  -- A row of any length is read without a fault if the array has room for seven numbers, for the
  -- inputs and for the labels. Only values of the network change.
  pub read_row_lem :
      (x₀ : F) (row sample : List F) (nn : NeuralNetwork F) (first last : Layer F)
      (rest : List (Layer F))
      → nn.layer_list ≡ first ∷ rest
      → last_layer nn.layer_list ≡ some last
      → 7 ≤ length sample
      → rounds first.neurons + rounds last.neurons ≤ length sample
      → rounds first.neurons ≤ length first.neuron_list
      → Read x₀ row sample (rounds last.neurons) nn
  unfolding read_row
  read_row_lem x₀ row sample nn first last rest e el h room fit =
      let (s, es, ls) = read_fields_total 7 0 sample row (omega arith) in
      let (ns, en, same) =
        set_inputs_total x₀ (rounds first.neurons) s first.neuron_list (omega arith) fit in
      let (ys, ey, ly) =
        labels_total (rounds last.neurons) (rounds first.neurons) s (omega arith) in
      record {
        sample' = s;
        ys = ys;
        nn' = record nn { layer_list = record first { neuron_list = ns } ∷ rest };
        runs = read_row-runs row sample s ys nn first last rest ns e el es en ey;
        same = frozen-first x₀ nn first rest ns e same;
        keeps = ls;
        even = ly;
      }
