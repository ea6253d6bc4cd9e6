-- ===== src/Server/Averaging/Vector.antt =====
-- The averaging functions on the parameter vector of a network.
use esp32_fl.Base.{
  ℕ, ◌≡◌, refl, ap, ap₂, Option, some, List, [], ◌∷◌, map, arith, length, length-append, concat_map,
  zip_with, zip_with-append, zip_step,
}
use esp32_fl.Float.{FloatArith}
use esp32_fl.Network.{Neuron, Layer, NeuralNetwork}
use esp32_fl.Network.Params.{
  neuron_params, layer_params, params, neuron_shape, layer_shape, shape, blank_neuron,
}
use esp32_fl.Network.Remap.{remap_layer, remap}
use esp32_fl.Server.Averaging.{add_weighted, sum_neuron, sum_layer, federated_averaging_sum}

-- One step of a loop over two structures of the same shape: it does not fault, keeps the shape,
-- and works position by position on the vectors.
pub record Pointwise {A S F : Type 0} (sh : A → S) (sk : A → A) (vec : A → List F) (op : F → F → F)
    (f : A → A → Option A) (x y : A) : Type 0 where
  pub result : A
  pub runs : f x y ≡ some result
  pub keeps : sk result ≡ sk x
  pub vector : vec result ≡ zip_with op (vec x) (vec y)
  pub even : length (vec x) ≡ length (vec y)

cons_heads : {S : Type 0} {a b : S} {ss ts : List S} → a ∷ ss ≡ b ∷ ts → a ≡ b
cons_heads e = cc

cons_tails : {S : Type 0} {a b : S} {ss ts : List S} → a ∷ ss ≡ b ∷ ts → ss ≡ ts
cons_tails e = cc

-- The loop over two chains, from its steps.
module _ {A S F : Type 0} (sh : A → S) (sk : A → A) (vec : A → List F) (op : F → F → F)
    (f : A → A → Option A) (step : (x y : A) → sh x ≡ sh y → Pointwise sh sk vec op f x y) where
  zip_step-Pointwise :
      (xs ys : List A)
      → map sh xs ≡ map sh ys
      → Pointwise (map sh) (map sk) (concat_map vec) op (zip_step f) xs ys
  zip_step-Pointwise [] [] e = record {
    result = [];
    runs = refl;
    keeps = refl;
    vector = refl;
    even = refl;
  }
  zip_step-Pointwise [] (y ∷ ys) e = absurd (cc)
  zip_step-Pointwise (x ∷ xs) [] e = absurd (cc)
  zip_step-Pointwise (x ∷ xs) (y ∷ ys) e =
      let one = step x y (cons_heads e) in
      let rest = zip_step-Pointwise xs ys (cons_tails e) in
      record {
        result = one.result ∷ rest.result;
        runs = rw (one.runs, rest.runs);
        keeps = ap₂ ◌∷◌ one.keeps rest.keeps;
        vector = rw (
          one.vector,
          rest.vector,
          zip_with-append op (vec x) (concat_map vec xs) (vec y) (concat_map vec ys) one.even,
        );
        even = omega (
          arith,
          one.even,
          rest.even,
          length-append (vec x) (concat_map vec xs),
          length-append (vec y) (concat_map vec ys),
        );
      }

module _ (fl : FloatArith) (x₀ : FloatArith.F fl) (t : ℕ) where
  open fl use {F}

  abbrev pub Step :
      {A S : Type 0} → (A → S) → (A → A) → (A → List F) → (A → A → Option A) → A → A → Type 0
  Step sh sk vec f x y = Pointwise sh sk vec (add_weighted fl t) f x y

  zip_step-weights :
      (gs cs : List F)
      → length gs ≡ length cs
      → zip_step (λ v w. some (add_weighted fl t v w)) gs cs
        ≡ some (zip_with (add_weighted fl t) gs cs)
  zip_step-weights [] [] e = refl
  zip_step-weights [] (c ∷ cs) e = absurd (omega arith)
  zip_step-weights (g ∷ gs) [] e = absurd (omega arith)
  zip_step-weights (g ∷ gs) (c ∷ cs) e = rw (zip_step-weights gs cs (omega arith))

  blank-zip_with :
      (op : F → F → F) (gs cs : List F)
      → length gs ≡ length cs
      → map (λ _. x₀) (zip_with op gs cs) ≡ map (λ _. x₀) gs
  blank-zip_with op [] [] e = refl
  blank-zip_with op [] (c ∷ cs) e = absurd (omega arith)
  blank-zip_with op (g ∷ gs) [] e = absurd (omega arith)
  blank-zip_with op (g ∷ gs) (c ∷ cs) e = ap (◌∷◌ x₀) (blank-zip_with op gs cs (omega arith))

  sum_neuron-Step :
      (g c : Neuron F)
      → neuron_shape g ≡ neuron_shape c
      → Step neuron_shape (blank_neuron x₀) neuron_params (sum_neuron fl t) g c
  unfolding sum_neuron
  sum_neuron-Step g c e = record {
    result = record g {
      bias = add_weighted fl t g.bias c.bias;
      weight_list = zip_with (add_weighted fl t) g.weight_list c.weight_list;
    };
    runs = rw (zip_step-weights g.weight_list c.weight_list e);
    keeps =
        ap (λ ws. record (blank_neuron x₀ g) { weight_list = ws })
          (blank-zip_with (add_weighted fl t) g.weight_list c.weight_list e);
    vector = refl;
    even = omega arith;
  }

  sum_layer-Step :
      (g c : Layer F)
      → layer_shape g ≡ layer_shape c
      → Step layer_shape (remap_layer (blank_neuron x₀)) layer_params (sum_layer fl t) g c
  unfolding sum_layer
  sum_layer-Step g c e =
      let all =
        zip_step-Pointwise neuron_shape (blank_neuron x₀) neuron_params (add_weighted fl t)
          (sum_neuron fl t) sum_neuron-Step g.neuron_list c.neuron_list e in
      record {
        result = record g { neuron_list = all.result };
        runs = rw all.runs;
        keeps = ap (λ ns. record g { neuron_list = ns }) all.keeps;
        vector = all.vector;
        even = all.even;
      }

  pub federated_averaging_sum-Step :
      (g c : NeuralNetwork F)
      → shape g ≡ shape c
      → Step shape (remap (blank_neuron x₀)) params (λ a b. federated_averaging_sum fl a b t) g c
  unfolding federated_averaging_sum
  federated_averaging_sum-Step g c e =
      let all =
        zip_step-Pointwise layer_shape (remap_layer (blank_neuron x₀)) layer_params
          (add_weighted fl t) (sum_layer fl t) sum_layer-Step g.layer_list c.layer_list e in
      record {
        result = record g { layer_list = all.result };
        runs = rw all.runs;
        keeps = ap (λ ls. record g { layer_list = ls }) all.keeps;
        vector = all.vector;
        even = all.even;
      }
