-- ===== src/Network/Chain/Linked.antt =====
-- The cells of a well-formed chain, and what a walk over them meets.
use esp32_fl.Base.{
  ℕ, zero, suc, ◌+◌, ◌<◌, ◌≡◌, refl, ap, none, some, List, [], ◌∷◌, ◌++◌, arith, get_elem?, length,
  length-append, append_assoc, ◌>>=◌,
}
use esp32_fl.Network.Chain.{Ptr, Cell, cell, set_next, walk}

module _ {A : Type 0} where
  -- The cells of `xs` in order, numbered from `j`; `p` stands before them and `n` behind them.
  abbrev pub linked : ℕ → Ptr → List A → Ptr → List (Cell A)
  linked j p [] n = []
  linked j p (x ∷ []) n = cell x p n ∷ []
  linked j p (x ∷ y ∷ ys) n = cell x p (some (suc j)) ∷ linked (suc j) (some j) (y ∷ ys) n

  -- The place of the last node of a chain that starts with some node at `j`.
  abbrev pub last_place : ℕ → List A → ℕ
  last_place j [] = j
  last_place j (y ∷ ys) = last_place (suc j) ys

  pub last_place_lem : (j : ℕ) (xs : List A) → last_place j xs ≡ j + length xs
  last_place_lem j [] = omega arith
  last_place_lem j (y ∷ ys) = omega (arith, last_place_lem (suc j) ys)

  pub last_place-append :
      (j : ℕ) (xs : List A) (a : A) → last_place j (xs ++ (a ∷ [])) ≡ suc (last_place j xs)
  last_place-append j [] a = refl
  last_place-append j (y ∷ ys) a = last_place-append (suc j) ys a

  pub length-linked : (j : ℕ) (p n : Ptr) (xs : List A) → length (linked j p xs n) ≡ length xs
  length-linked j p n [] = refl
  length-linked j p n (x ∷ []) = refl
  length-linked j p n (x ∷ y ∷ ys) = ap suc (length-linked (suc j) (some j) n (y ∷ ys))

  pub set_next-cons :
      (i : ℕ) (n : Ptr) (c : Cell A) (cs : List (Cell A))
      → set_next (some (suc i)) n (c ∷ cs) ≡ c ∷ set_next (some i) n cs
  set_next-cons i n c cs = ground arith

  -- The last node of a chain is pointed elsewhere.
  pub set_next-linked :
      (j : ℕ) (p n m : Ptr) (x : A) (xs : List A)
      → set_next (some (length xs)) m (linked j p (x ∷ xs) n) ≡ linked j p (x ∷ xs) m
  set_next-linked j p n m x [] = refl
  set_next-linked j p n m x (y ∷ ys) = rw (set_next-cons, set_next-linked (suc j) (some j) n m y ys)

  pub set_next-append :
      (i : ℕ) (n : Ptr) (cs ds : List (Cell A))
      → i < length cs
      → set_next (some i) n (cs ++ ds) ≡ set_next (some i) n cs ++ ds
  set_next-append i n [] ds h = elim h [ ]
  set_next-append zero n (c ∷ cs) ds h = refl
  set_next-append (suc i) n (c ∷ cs) ds h = rw (
    set_next-cons i n c cs,
    set_next-cons i n c (cs ++ ds),
    set_next-append i n cs ds (omega arith),
  )

  -- One node more at the end.
  pub linked-append :
      (j : ℕ) (p m : Ptr) (x a : A) (xs : List A)
      → linked j p (x ∷ xs ++ (a ∷ [])) m
        ≡ linked j p (x ∷ xs) (some (suc (last_place j xs)))
          ++ (cell a (some (last_place j xs)) m ∷ [])
  linked-append j p m x a [] = refl
  linked-append j p m x a (y ∷ ys) = rw (linked-append (suc j) (some j) m y a ys)

  pub get_elem?-append :
      (before : List (Cell A)) (c : Cell A) (cs : List (Cell A)) (j : ℕ)
      → length before ≡ j
      → get_elem? (before ++ (c ∷ cs)) j ≡ some c
  get_elem?-append [] c cs zero e = refl
  get_elem?-append [] c cs (suc j) e = absurd (omega arith)
  get_elem?-append (b ∷ before) c cs zero e = absurd (omega arith)
  get_elem?-append (b ∷ before) c cs (suc j) e = get_elem?-append before c cs j (omega arith)

  module _ (cs : List (Cell A)) where
    walk-suc :
        (fuel j : ℕ) {c : Cell A}
        → get_elem? cs j ≡ some c
        → walk (suc fuel) cs (some j) ≡ (do rest ← walk fuel cs c.next; some (c.value ∷ rest))
    unfolding walk
    walk-suc fuel j e = rw (e, walk)

    -- A walk meets the values in order, with one round of fuel for each.
    pub walk-linked_from :
        (before : List (Cell A)) (j : ℕ) (p : Ptr) (x : A) (xs : List A) (fuel : ℕ)
        → cs ≡ before ++ linked j p (x ∷ xs) none
        → length before ≡ j
        → length xs < fuel
        → walk fuel cs (some j) ≡ some (x ∷ xs)
    unfolding walk
    walk-linked_from before j p x xs zero e l h = elim h [ ]
    walk-linked_from before j p x [] (suc fuel) e l h =
        let c : Cell A = cell x p none in
        rw (walk-suc fuel j {c = c} (rw e (get_elem?-append before c [] j l)))
    walk-linked_from before j p x (y ∷ ys) (suc fuel) e l h =
        let c : Cell A = cell x p (some (suc j)) in
        let tail : List (Cell A) = linked (suc j) (some j) (y ∷ ys) none in
        rw (
          walk-suc fuel j {c = c} (rw e (get_elem?-append before c tail j l)),
          walk-linked_from (before ++ (c ∷ [])) (suc j) (some j) y ys fuel
              (rw (append_assoc before (c ∷ []) tail) e)
              (rw (length-append before (c ∷ [])) (omega arith)) (omega arith),
        )

  pub walk-linked :
      (p : Ptr) (x : A) (xs : List A) (fuel : ℕ)
      → length xs < fuel
      → walk fuel (linked 0 p (x ∷ xs) none) (some 0) ≡ some (x ∷ xs)
  walk-linked p x xs fuel h = walk-linked_from _ [] 0 p x xs fuel refl refl h
