-- ===== src/Network/Ends.antt =====
-- The first and the last layer of a well-formed network, and the numbers of its inputs and outputs.
use esp32_fl.Base.{ℕ, ◌+◌, ◌≡◌, refl, ap, some, List, [], ◌∷◌, map, arith, length, rounds}
use esp32_fl.Network.{Neuron, Layer, NeuralNetwork}
use esp32_fl.Network.Sample.{last_layer}
use esp32_fl.Network.Remap.{remap_layer, remap}
use esp32_fl.Network.Forward.Reference.{FitsFrom, FitsLayers}

module _ {F : Type 0} where
  abbrev pub count_in : List (Layer F) → ℕ
  count_in [] = 0
  count_in (l ∷ ls) = rounds l.neurons

  abbrev pub count_out : List (Layer F) → ℕ
  count_out [] = 0
  count_out (l ∷ []) = rounds l.neurons
  count_out (l ∷ m ∷ ls) = count_out (m ∷ ls)

  -- Numbers of inputs and outputs.
  abbrev pub count_io : NeuralNetwork F → ℕ
  count_io nn = count_in nn.layer_list + count_out nn.layer_list

  count_in-remap :
      (g : Neuron F → Neuron F) (ls : List (Layer F))
      → count_in (map (remap_layer g) ls) ≡ count_in ls
  count_in-remap g [] = refl
  count_in-remap g (l ∷ ls) = refl

  count_out-remap :
      (g : Neuron F → Neuron F) (ls : List (Layer F))
      → count_out (map (remap_layer g) ls) ≡ count_out ls
  count_out-remap g [] = refl
  count_out-remap g (l ∷ []) = refl
  count_out-remap g (l ∷ m ∷ ls) = count_out-remap g (m ∷ ls)

  pub count_out_congr :
      (g : Neuron F → Neuron F) (a b : NeuralNetwork F)
      → remap g a ≡ remap g b
      → count_out a.layer_list ≡ count_out b.layer_list
  count_out_congr g a b e = omega (
    arith,
    count_out-remap g a.layer_list,
    count_out-remap g b.layer_list,
    ap (λ nn. count_out (NeuralNetwork.layer_list nn)) e,
  )

  pub count_io_congr :
      (g : Neuron F → Neuron F) (a b : NeuralNetwork F)
      → remap g a ≡ remap g b
      → count_io a ≡ count_io b
  count_io_congr g a b e = omega (
    arith,
    count_in-remap g a.layer_list,
    count_in-remap g b.layer_list,
    count_out_congr g a b e,
    ap (λ nn. count_in (NeuralNetwork.layer_list nn)) e,
  )

  -- The first and the last layer of a well-formed network.
  pub record Ends (ls : List (Layer F)) : Type 0 where
    pub first : Layer F
    pub rest : List (Layer F)
    pub last : Layer F
    pub starts : ls ≡ first ∷ rest
    pub finishes : last_layer ls ≡ some last
    pub inputs : rounds first.neurons ≡ length first.neuron_list
    pub outputs : rounds last.neurons ≡ length last.neuron_list
    pub counted_in : count_in ls ≡ rounds first.neurons
    pub counted_out : count_out ls ≡ rounds last.neurons

  last-FitsFrom :
      (k : ℕ) (l : Layer F) (ls : List (Layer F))
      → FitsFrom k (l ∷ ls)
      → (last : Layer F) × (last_layer (l ∷ ls) ≡ some last)
        × (rounds last.neurons ≡ length last.neuron_list)
        × (count_out (l ∷ ls) ≡ rounds last.neurons)
  unfolding last_layer
  last-FitsFrom k l [] (h, _) = (l, refl, h, refl)
  last-FitsFrom k l (m ∷ ls) (_, _, hs) = last-FitsFrom (length l.neuron_list) m ls hs

  pub FitsLayers-Ends : (n : ℕ) (ls : List (Layer F)) → FitsLayers n ls → Ends ls
  unfolding last_layer
  FitsLayers-Ends n [] h = absurd h
  FitsLayers-Ends n (first ∷ []) (_, h, _) = record {
    first = first;
    rest = [];
    last = first;
    starts = refl;
    finishes = refl;
    inputs = h;
    outputs = h;
    counted_in = refl;
    counted_out = refl;
  }
  FitsLayers-Ends n (first ∷ l ∷ ls) (_, h, hs) =
      let (last, e, fits, out) = last-FitsFrom (length first.neuron_list) l ls hs in
      record {
        first = first;
        rest = l ∷ ls;
        last = last;
        starts = refl;
        finishes = e;
        inputs = h;
        outputs = fits;
        counted_in = refl;
        counted_out = out;
      }
