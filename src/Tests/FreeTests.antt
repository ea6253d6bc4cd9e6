-- ===== src/Tests/FreeTests.antt =====
-- A small network in memory, and its freeing.
use esp32_fl.Base.{
  ℕ, ◌≡◌, refl, ◌⊎◌, true, false, Option, none, some, List, [], ◌∷◌, ◌++◌, get_elem?, arith,
  if◌then◌else◌,
}
use esp32_fl.Network.Chain.{build_copy}
use esp32_fl.Network.Chain.Built.{several}
use esp32_fl.Network.Free.{Block, Heap, free_weights, free_neural_network}
use esp32_fl.Network.Free.Layout.{Layout, nothing, node, addresses, mem}
use esp32_fl.Network.Free.Frees.{free_neural_network-frees}
use esp32_fl.Network.Free.Copies.{Empties, memory_of, free_weights-build_copy}

abbrev block : Option ℕ → Option ℕ → Block
block first next = record { first = first; next = next }

-- The network, a layer, its two neurons, two weights of the first one, and memory of others.
abbrev memory : Heap
memory = get_elem? (
    block (some 1) none
    ∷ block (some 2) none
    ∷ block (some 4) (some 3)
    ∷ block none none
    ∷ block none (some 5)
    ∷ block none none
    ∷ block none (some 0)
    ∷ [])

abbrev layers : Layout
layers = node 1 (node 2 (node 4 nothing (node 5 nothing nothing)) (node 3 nothing nothing)) nothing

free_neural_network-frees_example :
    (h' : Heap) × (free_neural_network 5 0 memory ≡ some h')
    × ((x : ℕ) → h' x ≡ (if mem x (addresses layers ++ (0 ∷ [])) then none else memory x))
free_neural_network-frees_example =
    free_neural_network-frees 5 0 memory layers
      (record {
        block = _;
        at = refl;
        lies = (
          refl,
          _,
          refl,
          (
            refl,
            _,
            refl,
            (refl, _, refl, refl, (refl, _, refl, refl, refl)),
            (refl, _, refl, refl, refl),
          ),
          refl,
        );
        depth = (((tt, (tt, tt)), (tt, tt)), tt);
        once = (refl, (refl, (refl, (refl, (refl, (refl, tt))))));
      })
      (omega arith)

abbrev one_weight : List ℕ
one_weight = 7 ∷ []

free_weights-build_copy_example :
    ((several one_weight ≡ false)
      × (free_weights 1 (build_copy one_weight).first (memory_of (build_copy one_weight).cells)
          ≡ none))
    ⊎ ((several one_weight ≡ true) × Empties 1 (build_copy one_weight))
free_weights-build_copy_example = free_weights-build_copy one_weight 1 (omega arith)
