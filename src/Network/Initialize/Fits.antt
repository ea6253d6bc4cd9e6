-- ===== src/Network/Initialize/Fits.antt =====
-- A new network is well formed.
use esp32_fl.Base.{
  ℕ, zero, suc, ◌≡◌, refl, ap, ◌≢◌, false, some, List, [], ◌∷◌, arith, ◌==◌, length, All, rounds,
}
use esp32_fl.Float.{FloatArith}
use esp32_fl.Network.{Neuron, Layer, NeuralNetwork}
use esp32_fl.Network.Forward.Reference.{FitsNeuron, FitsLayer, FitsFrom, IsNetwork}
use esp32_fl.Network.Initialize.{
  LayerConfig, Memory, weight_value, initial_weights, initial_neuron, initial_neurons,
  initial_layer, initial_layers, initialize_neural_net_work,
}

-- No layer but the last is a softmax.
abbrev pub PlainFrom : List LayerConfig → Type 0
PlainFrom [] = Unit
PlainFrom (c ∷ []) = Unit
PlainFrom (c ∷ d ∷ cs) = (c.activationfunctiontype ≢ 4) × PlainFrom (d ∷ cs)

FitsFrom-cons :
    {F : Type 0} (k : ℕ) (l : Layer F) (ls : List (Layer F))
    → FitsLayer k l
    → l.activationfunctiontype ≢ 4
    → FitsFrom (length l.neuron_list) ls
    → FitsFrom k (l ∷ ls)
FitsFrom-cons k l [] fits plain rest = fits
FitsFrom-cons k l (m ∷ ls) fits plain rest = (fits, plain, rest)

module _ (fl : FloatArith) where
  open fl use {F}

  length-initial_weights :
      (value : ℕ → F) (k left : ℕ) → length (initial_weights fl value k left) ≡ left
  unfolding initial_weights
  length-initial_weights value k zero = refl
  length-initial_weights value k (suc left) = ap suc (length-initial_weights value (suc k) left)

  length-initial_neurons :
      (new : ℕ → Neuron F) (j left : ℕ) → length (initial_neurons fl new j left) ≡ left
  unfolding initial_neurons
  length-initial_neurons new j zero = refl
  length-initial_neurons new j (suc left) = ap suc (length-initial_neurons new (suc j) left)

  initial_neurons-All :
      (P : Neuron F → Type 0) (new : ℕ → Neuron F) (j left : ℕ)
      → ((j : ℕ) → P (new j))
      → All P (initial_neurons fl new j left)
  unfolding initial_neurons
  initial_neurons-All P new j zero h = tt
  initial_neurons-All P new j (suc left) h = (h j, initial_neurons-All P new (suc j) left h)

  module _ (memory : Memory F) (weightvalue layers : ℕ) where
    initial_neuron-FitsNeuron :
        (previous i j : ℕ)
        → FitsNeuron
            (rounds previous)
            (initial_neuron fl memory weightvalue layers previous (suc i) j)
    unfolding initial_neuron
    initial_neuron-FitsNeuron previous i j =
        let later : (suc i == 0) ≡ false = ground arith in
        rw later (
          refl,
          length-initial_weights (λ k. weight_value fl weightvalue (memory.rand (suc i) j k)) 0
              (rounds previous),
        )

    length-initial_layer :
        (previous i : ℕ) (c : LayerConfig)
        → length (initial_layer fl memory weightvalue layers previous i c).neuron_list
          ≡ rounds c.neurons
    unfolding initial_layer
    length-initial_layer previous i c =
        length-initial_neurons (initial_neuron fl memory weightvalue layers previous i) 0
          (rounds c.neurons)

    initial_layer-FitsLayer :
        (previous i : ℕ) (c : LayerConfig)
        → FitsLayer
            (rounds previous)
            (initial_layer fl memory weightvalue layers previous (suc i) c)
    unfolding initial_layer
    initial_layer-FitsLayer previous i c = (
      omega (
        arith,
        length-initial_neurons (initial_neuron fl memory weightvalue layers previous (suc i)) 0
            (rounds c.neurons),
      ),
      initial_neurons-All (FitsNeuron (rounds previous))
          (initial_neuron fl memory weightvalue layers previous (suc i)) 0 (rounds c.neurons)
          (initial_neuron-FitsNeuron previous i),
    )

    record Built (previous i left : ℕ) (cs : List LayerConfig) : Type 0 where
      pub result : List (Layer F)
      pub runs : initial_layers fl memory weightvalue layers previous i left cs ≡ some result
      pub count : length result ≡ left
      pub fits : FitsFrom (rounds previous) result

    initial_layers-Built :
        (previous i left : ℕ) (cs : List LayerConfig)
        → left ≡ length cs
        → PlainFrom cs
        → Built previous (suc i) left cs
    unfolding initial_layers initial_layer
    initial_layers-Built previous i zero [] e plain = record {
      result = [];
      runs = refl;
      count = refl;
      fits = tt;
    }
    initial_layers-Built previous i zero (c ∷ cs) e plain = absurd (omega arith)
    initial_layers-Built previous i (suc left) [] e plain = absurd (omega arith)
    initial_layers-Built previous i (suc zero) (c ∷ []) e plain = record {
      result = initial_layer fl memory weightvalue layers previous (suc i) c ∷ [];
      runs = refl;
      count = refl;
      fits = initial_layer-FitsLayer previous i c;
    }
    initial_layers-Built previous i (suc (suc left)) (c ∷ []) e plain = absurd (omega arith)
    initial_layers-Built previous i (suc left) (c ∷ d ∷ cs) e (p, plain) =
        let rest = initial_layers-Built c.neurons (suc i) left (d ∷ cs) (omega arith) plain in
        let l = initial_layer fl memory weightvalue layers previous (suc i) c in
        record {
          result = l ∷ rest.result;
          runs = rw rest.runs;
          count = ap suc rest.count;
          fits =
              FitsFrom-cons (rounds previous) l rest.result (initial_layer-FitsLayer previous i c) p
                (rw (length-initial_layer previous (suc i) c) rest.fits);
        }

    -- A network is well formed when it is initialised from a configuration that has a layer for
    -- each of its count and, behind the first layer, a softmax in the last one at most.
    pub initialize-IsNetwork :
        (nn : NeuralNetwork F) (cs : List LayerConfig) (c : LayerConfig) (loss : ℕ)
        → rounds layers ≡ length (c ∷ cs)
        → PlainFrom cs
        → (nn' : NeuralNetwork F) × (initialize_neural_net_work fl memory nn layers
              (c ∷ cs)
              loss
              weightvalue
            ≡ some nn')
          × IsNetwork nn'
    unfolding initialize_neural_net_work initial_layers initial_layer
    initialize-IsNetwork nn cs c loss e plain =
        let rest = initial_layers-Built c.neurons 0 (length cs) cs refl plain in
        let first = initial_layer fl memory weightvalue layers 0 0 c in
        (
          record nn { layers = layers; lossfunctiontype = loss; layer_list = first ∷ rest.result },
          rw (e, rest.runs),
          (
            omega (arith, e, rest.count),
            omega (arith, length-initial_layer 0 0 c),
            rw (length-initial_layer 0 0 c) rest.fits,
          ),
        )
