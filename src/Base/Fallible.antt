-- ===== src/Base/Fallible.antt =====
-- Code that can fault. `none` is a dereference of a null pointer (or of one that was never set).
use mathlib.Core.Path.{◌≡◌, refl}
use mathlib.Core.Option.{Option, none, some}
use mathlib.Core.List.{List, [], ◌∷◌}

infixl 5 ◌>>=◌
abbrev pub ◌>>=◌ {ℓ κ} : {A : Type ℓ} {B : Type κ} → Option A → (A → Option B) → Option B
none >>= f = none
some a >>= f = f a

-- The same step on every element, left to right.
abbrev pub traverse {ℓ κ} : {A : Type ℓ} {B : Type κ} → (A → Option B) → List A → Option (List B)
traverse f [] = some []
traverse f (x ∷ xs) = do y ← f x; ys ← traverse f xs; some (y ∷ ys)

pub >>=-eq-some {ℓ κ} :
    {A : Type ℓ} {B : Type κ} (m : Option A) (f : A → Option B) {b : B}
    → (m >>= f) ≡ some b
    → (a : A) × (m ≡ some a) × (f a ≡ some b)
>>=-eq-some none f h = cc
>>=-eq-some (some a) f h = (a, refl, h)

-- Two loops in step: the first list drives, and running off the second one is a fault.
abbrev pub zip_step {ℓ κ} :
    {A : Type ℓ} {B : Type κ} → (A → B → Option A) → List A → List B → Option (List A)
zip_step f [] ys = some []
zip_step f (x ∷ xs) [] = none
zip_step f (x ∷ xs) (y ∷ ys) = do z ← f x y; zs ← zip_step f xs ys; some (z ∷ zs)
