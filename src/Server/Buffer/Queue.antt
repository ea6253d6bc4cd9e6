-- ===== src/Server/Buffer/Queue.antt =====
-- The chain of the buffer as a queue.
use esp32_fl.Base.{
  ℕ, zero, suc, ◌+◌, ◌≡◌, refl, sym, ap, ◌∙◌, false, none, some, List, [], ◌∷◌, ◌++◌, arith, ◌==◌,
  set, length, length-append, append_assoc,
}
use esp32_fl.Network.Chain.{Ptr, Cell, Chain, cell, set_next, append_tail}
use esp32_fl.Network.Chain.Linked.{
  linked, last_place, last_place_lem, last_place-append, length-linked, set_next-linked,
  linked-append, get_elem?-append, set_next-cons,
}
use esp32_fl.Server.Buffer.{set_previous, remove_first}

module _ {A : Type 0} where
  -- Nodes that were removed stand before those of the queue.
  pub record Front (b : Chain A) (x : A) (xs : List A) : Type 0 where
    pub old : List (Cell A)
    pub nodes : b.cells ≡ old ++ linked (length old) none (x ∷ xs) none
    pub first : b.first ≡ some (length old)
    pub last : b.last ≡ some (last_place (length old) xs)

  -- The buffer holds these values, the oldest first.
  abbrev pub Holds : Chain A → List A → Type 0
  Holds b [] = (b.first ≡ none) × (b.last ≡ none)
  Holds b (x ∷ xs) = Front b x xs

  set_next-behind :
      (old ds : List (Cell A)) (k i : ℕ) (n : Ptr)
      → k ≡ length old + i
      → set_next (some k) n (old ++ ds) ≡ old ++ set_next (some i) n ds
  set_next-behind [] ds k i n e = let same : k ≡ i = omega (arith, e) in rw same
  set_next-behind (c ∷ old) ds zero i n e = absurd (omega (arith, e))
  set_next-behind (c ∷ old) ds (suc k) i n e =
      rw (set_next-cons k n c (old ++ ds), set_next-behind old ds k i n (omega (arith, e)))

  set-behind :
      (old : List (Cell A)) (c d : Cell A) (cs : List (Cell A))
      → set (old ++ (c ∷ cs)) (length old) d ≡ old ++ (d ∷ cs)
  set-behind [] c d cs = refl
  set-behind (b ∷ old) c d cs = ap (◌∷◌ b) (set-behind old c d cs)

  set_previous-at :
      (old : List (Cell A)) (c : Cell A) (cs : List (Cell A)) (q : Ptr)
      → set_previous (some (length old)) q (old ++ (c ∷ cs))
        ≡ some (old ++ (record c { previous = q } ∷ cs))
  unfolding set_previous
  set_previous-at old c cs q =
      rw (
        get_elem?-append old c cs (length old) refl,
        set-behind old c (record c { previous = q }) cs,
      )

  set_previous-linked :
      (old : List (Cell A)) (j : ℕ) (p q : Ptr) (y : A) (ys : List A)
      → length old ≡ j
      → set_previous (some j) q (old ++ linked j p (y ∷ ys) none)
        ≡ some (old ++ linked j q (y ∷ ys) none)
  set_previous-linked old j p q y [] e = rw (← e) (set_previous-at old (cell y p none) [] q)
  set_previous-linked old j p q y (z ∷ zs) e = rw (← e) (
      set_previous-at old (cell y p (some (suc (length old))))
        (linked (suc (length old)) (some (length old)) (z ∷ zs) none) q)

  -- A value that is put into the buffer is its last.
  pub append_tail-Holds :
      (b : Chain A) (xs : List A) (a : A) → Holds b xs → Holds (append_tail b a) (xs ++ (a ∷ []))
  unfolding append_tail
  append_tail-Holds b [] a (f, l) = record {
    old = b.cells;
    nodes = rw l;
    first = rw l;
    last = rw l;
  }
  append_tail-Holds b (x ∷ xs) a h =
      let n = length h.old in
      let m : Ptr = some (suc (last_place n xs)) in
      let count : length b.cells ≡ suc (last_place n xs) = omega (
        arith,
        ap length h.nodes,
        length-append h.old (linked n none (x ∷ xs) none),
        length-linked n none none (x ∷ xs),
        last_place_lem n xs,
      ) in
      let moved : set_next (some (last_place n xs)) m (h.old ++ linked n none (x ∷ xs) none)
          ≡ h.old ++ linked n none (x ∷ xs) m =
        set_next-behind h.old _ (last_place n xs) (length xs) m (last_place_lem n xs)
        ∙ ap (λ cs. h.old ++ cs) (set_next-linked n none none m x xs) in
      record {
        old = h.old;
        nodes =
            rw (h.last, count, h.nodes, moved, linked-append n none none x a xs)
              (append_assoc h.old (linked n none (x ∷ xs) m)
                (cell a (some (last_place n xs)) none ∷ []));
        first = rw h.last h.first;
        last = rw (h.last, count, last_place-append n xs a);
      }

  -- The first value is removed and the others stay.
  pub remove_first-Holds :
      (b : Chain A) (x : A) (xs : List A)
      → Front b x xs
      → (b' : Chain A) × (remove_first b ≡ some b') × Holds b' xs
  unfolding remove_first
  remove_first-Holds b x [] h =
      (record b { first = none; last = none }, rw (h.first, h.last) (ground arith), (refl, refl))
  remove_first-Holds b x (y ∷ ys) h =
      let n = length h.old in
      let node : Cell A = cell x none (some (suc n)) in
      let old' = h.old ++ (node ∷ []) in
      let rest = linked (suc n) none (y ∷ ys) none in
      let size : length old' ≡ suc n = omega (arith, length-append h.old (node ∷ [])) in
      let differ : (n == last_place (suc n) ys) ≡ false =
        ground (arith, last_place_lem (suc n) ys) in
      (
        record b { cells = old' ++ rest; first = some (suc n) },
        rw (
          h.first,
          h.last,
          differ,
          h.nodes,
          get_elem?-append h.old node (linked (suc n) (some n) (y ∷ ys) none) n refl,
          ← append_assoc h.old (node ∷ []) (linked (suc n) (some n) (y ∷ ys) none),
          set_previous-linked old' (suc n) (some n) none y ys size,
        ),
        record { old = old'; nodes = rw size; first = ap some (sym size); last = rw size h.last },
      )
