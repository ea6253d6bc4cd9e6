-- ===== src/Device/BackPropagation/Correct.antt =====
-- `BackPropagation` as a whole against its reference.
use esp32_fl.Base.{
  ℕ, suc, ◌+◌, ◌-◌, ◌≡◌, refl, some, List, [], ◌∷◌, arith, length, get_elem?, rounds,
}
use esp32_fl.Float.{FloatArith}
use esp32_fl.Network.{Layer, NeuralNetwork}
use esp32_fl.Network.Forward.Reference.{FitsFrom, FitsLayers, IsNetwork}
use esp32_fl.Device.BackPropagation.{from_last, back_propagation}
use esp32_fl.Device.BackPropagation.Reference.{trained, FitsBack, SameBefore, Labelled}
use esp32_fl.Device.BackPropagation.Rounds.{back_rounds_lem}

module _ {F : Type 0} where
  FitsBack-from_last :
      (p : Layer F) (before ls : List (Layer F))
      → FitsBack (p ∷ before)
      → FitsFrom (length p.neuron_list) ls
      → FitsBack (from_last ls (p ∷ before))
  unfolding from_last
  FitsBack-from_last p before [] h fits = h
  FitsBack-from_last p before (l ∷ []) h fits = (fits, h)
  FitsBack-from_last p before (l ∷ m ∷ ls) h fits =
      FitsBack-from_last l (p ∷ before) (m ∷ ls) (fits.0, h) fits.2

  pub length-from_last :
      (xs done : List (Layer F)) → length (from_last xs done) ≡ length xs + length done
  unfolding from_last
  length-from_last [] done = omega arith
  length-from_last (x ∷ xs) done = omega (arith, length-from_last xs (x ∷ done))

  -- A network is a chain that the rounds can walk from its last layer.
  pub FitsLayers-back :
      (n : ℕ) (ls : List (Layer F))
      → FitsLayers n ls
      → (first : Layer F) × (get_elem? ls 0 ≡ some first)
        × (suc (rounds n - 1) ≡ length (from_last ls []))
        × FitsBack (from_last ls [])
  unfolding from_last
  FitsLayers-back n [] h = absurd h
  FitsLayers-back n (l ∷ ls) (count, plain, fits) = (
    l,
    refl,
    omega (arith, count, length-from_last ls (l ∷ [])),
    FitsBack-from_last l [] ls plain fits,
  )

module _ (fl : FloatArith) where
  open fl use {F}

  -- On a well-formed network whose hidden layers are equally wide, and with a label for each neuron
  -- of the last layer, `BackPropagation` runs through and computes the reference: from the last
  -- layer on, biases and weights go down the slopes of the deltas, which are the differences to the
  -- labels, and in a hidden layer the sums of the deltas behind it times the weights there, which
  -- are updated by then, times the derivative of the activation function.
  pub back_propagation-trained :
      (nn : NeuralNetwork F) (label : List F) (alpha : F) (regularization : ℕ) (lambda : F)
      → IsNetwork nn
      → SameBefore (from_last nn.layer_list [])
      → Labelled label (from_last nn.layer_list [])
      → back_propagation fl nn label alpha regularization lambda
        ≡ some (trained fl alpha regularization lambda nn label)
  unfolding back_propagation
  back_propagation-trained nn label alpha regularization lambda h same labelled =
      let (first, found, count, fits) = FitsLayers-back nn.layers nn.layer_list h in
      rw (
        found,
        back_rounds_lem fl alpha regularization lambda (rounds nn.layers - 1) label
            (from_last nn.layer_list []) count fits same labelled,
      )
