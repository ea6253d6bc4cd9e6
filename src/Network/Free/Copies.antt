-- ===== src/Network/Free/Copies.antt =====
-- Freeing the chains that the copying functions build.
use esp32_fl.Base.{
  ℕ, zero, suc, ◌+◌, ◌≤◌, ◌≡◌, refl, ap, ◌∙◌, ◌⊎◌, Bool-cases, inl, inr, true, false, ◌&&◌, none,
  some, List, [], ◌∷◌, ◌++◌, ltb, leb, arith, get_elem?, length, length-append, append_assoc, ◌>>=◌,
}
use esp32_fl.Network.Chain.{Ptr, Cell, cell, Chain, build_copy}
use esp32_fl.Network.Chain.Linked.{linked, length-linked, get_elem?-append}
use esp32_fl.Network.Chain.Built.{
  several, chain_from, build_copy_lem, build_copy-nil, build_copy-one,
}
use esp32_fl.Network.Free.{Heap, free_weights}
use esp32_fl.Network.Free.Layout.{
  Layout, nothing, node, addresses, Lies, HasDepth, mem, Once, erase, erase-mem,
}
use esp32_fl.Network.Free.Frees.{free_weights-Clears, free_weights-loop, free_weights-null}

module _ {A : Type 0} where
  -- The nodes of a chain that hold no chains, at their places.
  abbrev pub memory_of : List (Cell A) → Heap
  memory_of cs i = do c ← get_elem? cs i; some (record { first = none; next = c.next })

  abbrev row : ℕ → List A → Layout
  row j [] = nothing
  row j (x ∷ xs) = node j nothing (row (suc j) xs)

  memory_of-at :
      (cs before : List (Cell A)) (c : Cell A) (tail : List (Cell A)) (j : ℕ)
      → cs ≡ before ++ (c ∷ tail)
      → length before ≡ j
      → memory_of cs j ≡ some (record { first = none; next = c.next })
  memory_of-at cs before c tail j e l =
      let at : get_elem? cs j ≡ some c = rw e (get_elem?-append before c tail j l) in rw at refl

  row-Lies :
      (cs before : List (Cell A)) (j : ℕ) (p : Ptr) (x : A) (xs : List A)
      → cs ≡ before ++ linked j p (x ∷ xs) none
      → length before ≡ j
      → Lies (memory_of cs) (some j) (row j (x ∷ xs))
  row-Lies cs before j p x [] e l = (
    refl,
    record { first = none; next = none },
    memory_of-at cs before (cell x p none) [] j e l,
    refl,
    refl,
  )
  row-Lies cs before j p x (y ∷ ys) e l =
      let c : Cell A = cell x p (some (suc j)) in
      let tail : List (Cell A) = linked (suc j) (some j) (y ∷ ys) none in
      (
        refl,
        record { first = none; next = some (suc j) },
        memory_of-at cs before c tail j e l,
        refl,
        row-Lies cs (before ++ (c ∷ [])) (suc j) (some j) y ys
            (rw (append_assoc before (c ∷ []) tail) e)
            (rw (length-append before (c ∷ [])) (omega arith)),
      )

  row-HasDepth : (j : ℕ) (xs : List A) → HasDepth 1 (row j xs)
  row-HasDepth j [] = tt
  row-HasDepth j (x ∷ xs) = (tt, row-HasDepth (suc j) xs)

  row-mem :
      (x j : ℕ) (xs : List A) → mem x (addresses (row j xs)) ≡ (leb j x && ltb x (j + length xs))
  row-mem x j [] = ground arith
  row-mem x j (y ∷ xs) = ground (arith, row-mem x (suc j) xs)

  row-Once : (j : ℕ) (xs : List A) → Once (addresses (row j xs))
  row-Once j [] = tt
  row-Once j (x ∷ xs) = (ground (arith, row-mem j (suc j) xs), row-Once (suc j) xs)

  row-length : (j : ℕ) (xs : List A) → length (addresses (row j xs)) ≡ length xs
  row-length j [] = refl
  row-length j (x ∷ xs) = ap suc (row-length (suc j) xs)

  memory_of-end : (cs : List (Cell A)) (i : ℕ) → length cs ≤ i → memory_of cs i ≡ none
  memory_of-end [] i h = refl
  memory_of-end (c ∷ cs) zero h = absurd (omega arith)
  memory_of-end (c ∷ cs) (suc i) h = memory_of-end cs i (omega arith)

  -- Nothing is left.
  abbrev pub Empties : ℕ → Chain A → Type 0
  Empties fuel c =
      (h : Heap) × (free_weights fuel c.first (memory_of c.cells) ≡ some h) × ((x : ℕ) → h x ≡ none)

  chain_from-Empties :
      (fuel : ℕ) (p : Ptr) (x : A) (xs : List A)
      → length (x ∷ xs) ≤ fuel
      → Empties fuel (chain_from p (x ∷ xs))
  chain_from-Empties fuel p x xs enough =
      let cs = linked 0 p (x ∷ xs) none in
      let f = row 0 (x ∷ xs) in
      (
        erase (addresses f) (memory_of cs),
        free_weights-Clears fuel (memory_of cs) (some 0) f (row-Lies cs [] 0 p x xs refl refl)
            (row-HasDepth 0 (x ∷ xs)) (row-Once 0 (x ∷ xs))
            (omega (arith, row-length 0 (x ∷ xs), enough)),
        λ i. erase-mem (addresses f) (memory_of cs) i ∙ elim (Bool-cases (mem i (addresses f))) [
          | inl m ↦ rw m refl
          | inr m ↦
              let far : length cs ≤ i =
                ground (arith, row-mem i 0 (x ∷ xs), length-linked 0 p none (x ∷ xs)) in
              rw m (memory_of-end cs i far)
        ],
      )

  -- The copy of a chain of one node is freed and then read again, whatever the fuel; that of any
  -- other chain is freed as a whole, without a fault, if there is fuel for each of its nodes.
  pub free_weights-build_copy :
      (xs : List A) (fuel : ℕ)
      → length xs ≤ fuel
      → ((several xs ≡ false)
          × (free_weights fuel (build_copy xs).first (memory_of (build_copy xs).cells) ≡ none))
        ⊎ ((several xs ≡ true) × Empties fuel (build_copy xs))
  free_weights-build_copy [] fuel enough =
      inr (refl, rw build_copy-nil ((λ _. none), free_weights-null fuel (λ _. none), λ _. refl))
  free_weights-build_copy (x ∷ []) fuel enough =
      inl (refl, rw (build_copy-one x) (free_weights-loop fuel 0 _ _ refl refl))
  free_weights-build_copy (x ∷ y ∷ xs) fuel enough = inr (
    ground arith,
    rw (build_copy_lem x y xs) (chain_from-Empties fuel (some 0) x (y ∷ xs) enough),
  )
