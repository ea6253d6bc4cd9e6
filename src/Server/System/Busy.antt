-- ===== src/Server/System/Busy.antt =====
-- Addresses in lists: in at most one place, and taken out.
use esp32_fl.Base.{
  String, ◌≡◌, refl, ◌≢◌, ◌⊎◌, inl, inr, Bool-cases, true, false, ◌||◌, List, [], ◌∷◌, ◌++◌, arith,
  str_eq, eq_iff,
}
use esp32_fl.Server.Aggregation.Pending.{mem, remove}

-- No address stands twice.
abbrev pub Once : List String → Type 0
Once [] = Unit {0}
Once (x ∷ xs) = (mem x xs ≡ false) × Once xs

pub mem-append : (x : String) (xs ys : List String) → mem x (xs ++ ys) ≡ (mem x xs || mem x ys)
mem-append x [] ys = refl
mem-append x (y ∷ xs) ys = ground (arith, mem-append x xs ys)

pub mem-remove_other : (x y : String) (xs : List String) → x ≢ y → mem x (remove y xs) ≡ mem x xs
mem-remove_other x y [] ne = refl
mem-remove_other x y (z ∷ xs) ne =
    ground (arith, mem-remove_other x y xs ne, eq_iff z y, eq_iff z x)

pub mem-remove_self : (x : String) (xs : List String) → Once xs → mem x (remove x xs) ≡ false
mem-remove_self x [] o = refl
mem-remove_self x (y ∷ xs) (o, os) = ground (arith, mem-remove_self x xs os, eq_iff y x)

mem-remove : (x y : String) (xs : List String) → mem x xs ≡ false → mem x (remove y xs) ≡ false
mem-remove x y [] h = refl
mem-remove x y (z ∷ xs) h = ground (arith, mem-remove x y xs)

pub Once-remove : (x : String) (xs : List String) → Once xs → Once (remove x xs)
Once-remove x [] o = tt
Once-remove x (y ∷ xs) (o, os) = ground (arith, Once-remove x xs os, mem-remove y x xs o)

pub Once-append :
    (xs : List String) (y : String) → Once xs → mem y xs ≡ false → Once (xs ++ (y ∷ []))
Once-append [] y o h = (refl, tt)
Once-append (x ∷ xs) y (o, os) h = (
  ground (arith, mem-append x xs (y ∷ []), eq_iff x y, eq_iff y x),
  Once-append xs y os (ground arith),
)

pub mem-removed :
    (x y : String) (xs : List String)
    → Once xs
    → mem x (remove y xs) ≡ true
    → (x ≢ y) × (mem x xs ≡ true)
mem-removed x y xs o m =
    let other : x ≢ y = λ e. absurd (ground (arith, mem-remove_self y xs o, e)) in
    (other, ground (arith, mem-remove_other x y xs other))

pub mem-snoc :
    (x y : String) (xs : List String) → mem x (xs ++ (y ∷ [])) ≡ true → (mem x xs ≡ true) ⊎ (y ≡ x)
mem-snoc x y xs m = elim (Bool-cases (mem x xs)) [
  | inl old ↦ inl old
  | inr new ↦ inr (ground (arith, mem-append x xs (y ∷ []), eq_iff y x))
]

pub mem-head :
    (x y : String) (xs : List String) → mem x (y ∷ xs) ≡ true → (y ≡ x) ⊎ (mem x xs ≡ true)
mem-head x y xs m = elim (Bool-cases (str_eq y x)) [
  | inl same ↦ inl ((eq_iff y x).0 same)
  | inr other ↦ inr (ground arith)
]

pub mem-cons :
    (x y : String) (xs : List String) → mem x (y ∷ xs) ≡ false → (x ≢ y) × (mem x xs ≡ false)
mem-cons x y xs m = (λ e. absurd (ground (arith, eq_iff y x, e)), ground arith)
