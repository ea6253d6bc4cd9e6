-- ===== src/Network/Chain/Built.antt =====
-- What the two insertions build: chains that a loop over `next` reads back, and the one case in
-- which the copy does not.
use esp32_fl.Base.{
  ℕ, zero, suc, ◌==◌, if◌then◌else◌, Bool, not, ◌≡◌, ◌≢◌, refl, none, some, List, [], ◌∷◌, ◌++◌,
  arith, foldl, length, append-nil, append_assoc,
}
use esp32_fl.Network.Chain.{
  Ptr, Chain, cell, empty_chain, set_next, append_tail, append_copy, walk, read_chain, build_tail,
  build_copy,
}
use esp32_fl.Network.Chain.Linked.{
  linked, last_place, last_place_lem, last_place-append, length-linked, set_next-linked,
  set_next-append, linked-append, walk-linked,
}

module _ {A : Type 0} where
  -- The chain whose nodes hold `xs` and whose first node has `p` for its previous one.
  abbrev pub chain_from : Ptr → List A → Chain A
  chain_from p [] = empty_chain
  chain_from p (x ∷ xs) = record {
    cells = linked 0 p (x ∷ xs) none;
    first = some 0;
    last = some (last_place 0 xs);
  }

  chain_from-cons :
      (p : Ptr) (x : A) (xs : List A)
      → (last_place 0 xs ≡ length xs) × (length (linked 0 p (x ∷ xs) none) ≡ suc (length xs))
  chain_from-cons p x xs = (omega (arith, last_place_lem 0 xs), length-linked 0 p none (x ∷ xs))

  -- A chain whose last node was pointed at a new one, and the new node behind it.
  relinked :
      (p m : Ptr) (x a : A) (xs : List A)
      → set_next (some (length xs)) (some (suc (length xs))) (linked 0 p (x ∷ xs) m)
          ++ (cell a (some (length xs)) none ∷ [])
        ≡ linked 0 p (x ∷ (xs ++ (a ∷ []))) none
  relinked p m x a xs = rw (
    set_next-linked 0 p m (some (suc (length xs))) x xs,
    linked-append 0 p none x a xs,
    (chain_from-cons p x xs).0,
  )

  append_tail-chain_from :
      (xs : List A) (a : A) → append_tail (chain_from none xs) a ≡ chain_from none (xs ++ (a ∷ []))
  unfolding append_tail
  append_tail-chain_from [] a = refl
  append_tail-chain_from (x ∷ xs) a = rw (
    (chain_from-cons none x xs).0,
    (chain_from-cons none x xs).1,
    relinked none none x a xs,
    last_place-append 0 xs a,
    (chain_from-cons none x xs).0,
  )

  foldl-append_tail :
      (xs ys : List A) → foldl append_tail (chain_from none ys) xs ≡ chain_from none (ys ++ xs)
  foldl-append_tail [] ys = rw (append-nil ys)
  foldl-append_tail (x ∷ xs) ys = rw (
    append_tail-chain_from ys x,
    foldl-append_tail xs (ys ++ (x ∷ [])),
    append_assoc ys (x ∷ []) xs,
  )

  -- Nodes that are put in one behind the other form the chain of their values, linked both ways:
  -- the first node has no previous one and the last no next one.
  pub build_tail_lem : (xs : List A) → build_tail xs ≡ chain_from none xs
  unfolding build_tail
  build_tail_lem xs = foldl-append_tail xs []

  pub read_chain-chain_from : (p : Ptr) (xs : List A) → read_chain (chain_from p xs) ≡ some xs
  unfolding read_chain
  read_chain-chain_from p [] = refl
  read_chain-chain_from p (x ∷ xs) =
      walk-linked p x xs (suc (length (linked 0 p (x ∷ xs) none)))
        (omega (arith, length-linked 0 p none (x ∷ xs)))

  -- The copying functions: the first node is its own previous one.
  append_copy-chain_from :
      (x : A) (xs : List A) (a : A) (m : Ptr)
      → append_copy
          (record { cells = linked 0 (some 0) (x ∷ xs) m; first = some 0; last = some (length xs) })
          a
        ≡ chain_from (some 0) (x ∷ xs ++ (a ∷ []))
  unfolding append_copy
  append_copy-chain_from x xs a m = rw (
    length-linked 0 (some 0) m (x ∷ xs),
    set_next-append (length xs) (some (suc (length xs))) (linked 0 (some 0) (x ∷ xs) m)
        (cell a (some (length xs)) none ∷ []) (omega (arith, length-linked 0 (some 0) m (x ∷ xs))),
    relinked (some 0) m x a xs,
    last_place-append 0 xs a,
    (chain_from-cons none x xs).0,
  )

  foldl-append_copy :
      (x : A) (xs ys : List A)
      → foldl append_copy (chain_from (some 0) (x ∷ ys)) xs ≡ chain_from (some 0) (x ∷ ys ++ xs)
  foldl-append_copy x [] ys = rw (append-nil ys)
  foldl-append_copy x (a ∷ xs) ys = rw (
    (chain_from-cons none x ys).0,
    append_copy-chain_from x ys a none,
    foldl-append_copy x xs (ys ++ (a ∷ [])),
    append_assoc ys (a ∷ []) xs,
  )

  pub build_copy-nil : build_copy {A = A} [] ≡ empty_chain
  unfolding build_copy
  build_copy-nil = refl

  -- The one node is its own next one.
  pub build_copy-one :
      (x : A)
      → build_copy (x ∷ [])
        ≡ record { cells = cell x (some 0) (some 0) ∷ []; first = some 0; last = some 0 }
  unfolding build_copy append_copy
  build_copy-one x = refl

  pub build_copy_lem :
      (x y : A) (xs : List A) → build_copy (x ∷ y ∷ xs) ≡ chain_from (some 0) (x ∷ y ∷ xs)
  unfolding build_copy append_copy
  build_copy_lem x y xs = foldl-append_copy x xs (y ∷ [])

  walk_loop : (fuel : ℕ) (x : A) (p : Ptr) → walk fuel (cell x p (some 0) ∷ []) (some 0) ≡ none
  unfolding walk
  walk_loop zero x p = refl
  walk_loop (suc fuel) x p = rw (walk_loop fuel x p)

  -- A copied chain that does not have exactly one node is read back as it was.
  pub read_chain-build_copy : (xs : List A) → length xs ≢ 1 → read_chain (build_copy xs) ≡ some xs
  unfolding build_copy
  read_chain-build_copy [] h = read_chain-chain_from none []
  read_chain-build_copy (x ∷ []) h = absurd (h refl)
  read_chain-build_copy (x ∷ y ∷ xs) h =
      rw (build_copy_lem x y xs) (read_chain-chain_from (some 0) (x ∷ y ∷ xs))

  -- In a copied chain of one node a loop along the pointers is still running when any amount of
  -- fuel is gone.
  pub walk-build_copy_one :
      (fuel : ℕ) (x : A) → walk fuel (build_copy (x ∷ [])).cells (build_copy (x ∷ [])).first ≡ none
  unfolding build_copy append_copy
  walk-build_copy_one fuel x = walk_loop fuel x (some 0)

  -- A chain of one node is the one that the copying loop gets wrong.
  abbrev pub several : List A → Bool
  several xs = not (length xs == 1)

  -- The chain that a copying loop builds is read back as it was if it does not have exactly one
  -- node; one node gives no result.
  pub read_chain-several :
      (xs : List A) → read_chain (build_copy xs) ≡ (if several xs then some xs else none)
  unfolding read_chain build_copy append_copy
  read_chain-several [] = refl
  read_chain-several (x ∷ []) = walk_loop 2 x (some 0)
  read_chain-several (x ∷ y ∷ xs) =
      rw (build_copy_lem x y xs, read_chain-chain_from (some 0) (x ∷ y ∷ xs)) (ground arith)
