-- ===== src/Network/Copy/Exact.antt =====
-- When the copy of a network is the network.
use esp32_fl.Base.{
  ◌≡◌, refl, Bool, true, ◌&&◌, Option, none, some, List, [], ◌∷◌, arith, if◌then◌else◌, all,
  traverse,
}
use esp32_fl.Network.{Neuron, Layer, NeuralNetwork}
use esp32_fl.Network.Chain.Built.{several, read_chain-several}
use esp32_fl.Network.Copy.{copy_chain, copy_weight, copy_neuron, copy_layer, copy_neural_network}

module _ {A : Type 0} where
  module _ (f : A → Option A) (good : A → Bool)
      (exact : (x : A) → f x ≡ (if good x then some x else none)) where
    traverse-exact : (xs : List A) → traverse f xs ≡ (if all good xs then some xs else none)
    traverse-exact [] = refl
    traverse-exact (x ∷ xs) = rw (exact x, traverse-exact xs) (ground arith)

    copy_chain-exact :
        (xs : List A) → copy_chain f xs ≡ (if all good xs && several xs then some xs else none)
    unfolding copy_chain
    copy_chain-exact xs = rw (traverse-exact xs) (ground (arith, read_chain-several xs))

module _ {F : Type 0} where
  abbrev pub copyable_neuron : Neuron F → Bool
  copyable_neuron n = several n.weight_list

  abbrev pub copyable_layer : Layer F → Bool
  copyable_layer l = all copyable_neuron l.neuron_list && several l.neuron_list

  -- No chain of the network has exactly one node.
  abbrev pub copyable : NeuralNetwork F → Bool
  copyable nn = all copyable_layer nn.layer_list && several nn.layer_list

  all-true : (xs : List F) → all (λ _. true) xs ≡ true
  all-true [] = refl
  all-true (x ∷ xs) = all-true xs

  copy_weight-exact : (w : F) → copy_weight w ≡ some w
  unfolding copy_weight
  copy_weight-exact w = refl

  copy_neuron-exact : (n : Neuron F) → copy_neuron n ≡ (if copyable_neuron n then some n else none)
  unfolding copy_neuron
  copy_neuron-exact n =
      rw
        (
          copy_chain-exact copy_weight (λ _. true) copy_weight-exact n.weight_list,
          all-true n.weight_list,
        )
        (ground arith)

  copy_layer-exact : (l : Layer F) → copy_layer l ≡ (if copyable_layer l then some l else none)
  unfolding copy_layer
  copy_layer-exact l =
      ground (arith, copy_chain-exact copy_neuron copyable_neuron copy_neuron-exact l.neuron_list)

  -- The copy of a network is that network if none of its chains (of layers, of neurons, of
  -- weights) has exactly one node; if one has, a reader of the copy gets no result.
  pub copy_neural_network-exact :
      (nn : NeuralNetwork F) → copy_neural_network nn ≡ (if copyable nn then some nn else none)
  unfolding copy_neural_network
  copy_neural_network-exact nn =
      ground (arith, copy_chain-exact copy_layer copyable_layer copy_layer-exact nn.layer_list)
