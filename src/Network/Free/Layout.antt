-- ===== src/Network/Free/Layout.antt =====
-- Where the nodes of a network lie.
use esp32_fl.Base.{
  ℕ, zero, suc, ◌≡◌, inl, inr, Bool-cases, refl, Bool, true, false, ◌||◌, none, some, List, [], ◌∷◌,
  ◌++◌, ◌==◌, ==_iff, arith, if◌then◌else◌,
}
use esp32_fl.Network.Chain.{Ptr}
use esp32_fl.Network.Free.{Block, Heap, without}

-- The addresses of a chain, each with those of the chain that the node holds.
pub data Layout : Type 0 where
  nothing : Layout
  node : ℕ → Layout → Layout → Layout

-- In the order in which the loops free them.
abbrev pub addresses : Layout → List ℕ
addresses nothing = []
addresses (node a held rest) = addresses held ++ (a ∷ addresses rest)

-- The chains in the memory, from a pointer on.
abbrev pub Lies : Heap → Ptr → Layout → Type 0
Lies h p nothing = p ≡ none
Lies h p (node a held rest) =
    (p ≡ some a) × (b : Block) × (h a ≡ some b) × Lies h b.first held × Lies h b.next rest

-- How far the chains are nested: 1 for weights, 2 for neurons, 3 for layers.
abbrev pub HasDepth : ℕ → Layout → Type 0
HasDepth d nothing = Unit {0}
HasDepth zero (node a held rest) = ⊥
HasDepth (suc d) (node a held rest) = HasDepth d held × HasDepth (suc d) rest

abbrev pub mem : ℕ → List ℕ → Bool
mem x [] = false
mem x (y ∷ ys) = (x == y) || mem x ys

-- No two nodes at one address.
abbrev pub Once : List ℕ → Type 0
Once [] = Unit {0}
Once (x ∷ xs) = (mem x xs ≡ false) × Once xs

abbrev pub erase : List ℕ → Heap → Heap
erase [] h = h
erase (a ∷ xs) h = erase xs (without a h)

pub erase-append : (xs ys : List ℕ) (h : Heap) → erase (xs ++ ys) h ≡ erase ys (erase xs h)
erase-append [] ys h = refl
erase-append (a ∷ xs) ys h = erase-append xs ys (without a h)

-- Exactly these addresses are free afterwards.
pub erase-mem : (xs : List ℕ) (h : Heap) (x : ℕ) → erase xs h x ≡ (if mem x xs then none else h x)
erase-mem [] h x = refl
erase-mem (a ∷ xs) h x = ground (arith, erase-mem xs (without a h) x)

pub mem-append : (x : ℕ) (xs ys : List ℕ) → mem x (xs ++ ys) ≡ (mem x xs || mem x ys)
mem-append x [] ys = refl
mem-append x (y ∷ xs) ys = ground (arith, mem-append x xs ys)

-- The parts of a list without duplicates.
pub record Parts (xs : List ℕ) (a : ℕ) (ys : List ℕ) : Type 0 where
  pub left : Once xs
  pub right : Once ys
  pub not_left : mem a xs ≡ false
  pub not_right : mem a ys ≡ false
  pub apart : (x : ℕ) → mem x ys ≡ true → mem x xs ≡ false

pub Once-Parts : (xs : List ℕ) (a : ℕ) (ys : List ℕ) → Once (xs ++ (a ∷ ys)) → Parts xs a ys
Once-Parts [] a ys (o, os) = record {
  left = tt;
  right = os;
  not_left = refl;
  not_right = o;
  apart = λ x m. refl;
}
Once-Parts (x ∷ xs) a ys (o, os) =
    let rest = Once-Parts xs a ys os in
    let free_of = mem-append x xs (a ∷ ys) in
    record {
      left = (ground (arith, free_of), rest.left);
      right = rest.right;
      not_left = ground (arith, free_of, rest.not_left);
      not_right = rest.not_right;
      apart = λ y m. ground (arith, rest.apart y m, free_of, mem-append x xs (a ∷ ys), ==_iff x y);
    }

-- Chains stay where memory is freed that is not theirs.
pub Lies-without :
    (f : Layout) (a : ℕ) (h : Heap) (p : Ptr)
    → mem a (addresses f) ≡ false
    → Lies h p f
    → Lies (without a h) p f
Lies-without nothing a h p m l = l
Lies-without (node x held rest) a h p m (e, b, at, l, l') =
    let parts = mem-append a (addresses held) (x ∷ addresses rest) in
    let other : (x == a) ≡ false = ground (arith, parts) in
    (
      e,
      b,
      rw other at,
      Lies-without held a h b.first (ground (arith, parts)) l,
      Lies-without rest a h b.next (ground (arith, parts)) l',
    )

pub Lies-erase :
    (xs : List ℕ) (f : Layout) (h : Heap) (p : Ptr)
    → ((x : ℕ) → mem x (addresses f) ≡ true → mem x xs ≡ false)
    → Lies h p f
    → Lies (erase xs h) p f
Lies-erase [] f h p apart l = l
Lies-erase (a ∷ xs) f h p apart l =
    Lies-erase xs f (without a h) p (λ x m. ground (arith, apart x m))
      (Lies-without f a h p
        (elim (Bool-cases (mem a (addresses f))) [
          | inl m ↦ absurd (ground (arith, apart a m))
          | inr m ↦ m
        ])
        l)
