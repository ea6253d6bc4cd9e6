-- ===== src/Device/BackPropagation/Short.antt =====
-- The steps of `BackPropagation` where a vector is shorter than what is read of it.
use esp32_fl.Base.{
  ℕ, zero, suc, ◌+◌, ◌<◌, ◌≡◌, refl, sym, ap, ◌∙◌, inl, inr, Option, none, some, List, [], ◌∷◌,
  ◌++◌, arith, length, get_elem?, >>=-eq-some, Option-cases,
}
use esp32_fl.Float.{FloatArith}
use esp32_fl.Network.{Neuron}
use esp32_fl.Device.BackPropagation.{from_last, copy_floats, accumulate, hidden_deltas}

abbrev size : {A : Type 0} → Option (List A) → ℕ
size none = 0
size (some xs) = length xs

pub copy_floats-length :
    {F : Type 0} (n : ℕ) (xs : List F) {ys : List F} → copy_floats n xs ≡ some ys → length ys ≡ n
unfolding copy_floats
copy_floats-length zero xs e = sym (ap size e)
copy_floats-length (suc n) [] e = cc
copy_floats-length (suc n) (x ∷ xs) e =
    let (rest, copied, now) = >>=-eq-some (copy_floats n xs) _ e in
    sym (ap size now) ∙ ap suc (copy_floats-length n xs copied)

pub copy_floats-short : {F : Type 0} (n : ℕ) (xs : List F) → length xs < n → copy_floats n xs ≡ none
unfolding copy_floats
copy_floats-short zero xs h = absurd (omega arith)
copy_floats-short (suc n) [] h = refl
copy_floats-short (suc n) (x ∷ xs) h = rw (copy_floats-short n xs (omega arith)) refl

module _ (fl : FloatArith) where
  open fl use {F, of_int, add, mul}

  module _ (alpha : F) (regularization : ℕ) (lambda : F) where
    accumulate-short :
        (n : ℕ) (sum : F) (deltas : List F) (columns : List (List F)) (i : ℕ)
        → length deltas < n
        → accumulate fl alpha regularization lambda n sum deltas columns i ≡ none
    unfolding accumulate
    accumulate-short zero sum deltas columns i h = absurd (omega arith)
    accumulate-short (suc n) sum [] columns i h = refl
    accumulate-short (suc n) sum (d ∷ deltas) [] i h = refl
    accumulate-short (suc n) sum (d ∷ deltas) (column ∷ columns) i h =
        elim (Option-cases (get_elem? column i)) [
          | inl absent ↦ rw absent refl
          | inr (w, e) ↦
              rw e (accumulate-short n (add sum (mul d w)) deltas columns i (omega arith))
        ]

    pub hidden_deltas-length :
        (left i n : ℕ) (deltas : List F) (weights : List (List F)) (ty : ℕ) (ns : List (Neuron F))
        {ds : List F}
        → hidden_deltas fl alpha regularization lambda left i n deltas weights ty ns ≡ some ds
        → length ds ≡ left
    unfolding hidden_deltas
    hidden_deltas-length zero i n deltas weights ty ns e = sym (ap size e)
    hidden_deltas-length (suc left) i n deltas weights ty [] e = cc
    hidden_deltas-length (suc left) i n deltas weights ty (m ∷ ns) e =
        let (sum, summed, rest) =
          >>=-eq-some (accumulate fl alpha regularization lambda n (of_int 0) deltas weights i) _
            e in
        let (ds, later, now) =
          >>=-eq-some
            (hidden_deltas fl alpha regularization lambda left (suc i) n deltas weights ty ns) _
            rest in
        sym (ap size now) ∙ ap suc (hidden_deltas-length left (suc i) n deltas weights ty ns later)

    pub hidden_deltas-short :
        (left i n : ℕ) (deltas : List F) (weights : List (List F)) (ty : ℕ) (ns : List (Neuron F))
        → length deltas < n
        → 0 < left
        → hidden_deltas fl alpha regularization lambda left i n deltas weights ty ns ≡ none
    unfolding hidden_deltas
    hidden_deltas-short zero i n deltas weights ty ns h pos = absurd (omega arith)
    hidden_deltas-short (suc left) i n deltas weights ty [] h pos = refl
    hidden_deltas-short (suc left) i n deltas weights ty (m ∷ ns) h pos =
        rw (accumulate-short n (of_int 0) deltas weights i h) refl

from_last-append :
    {A : Type 0} (xs ys done : List A)
    → from_last (xs ++ ys) done ≡ from_last ys (from_last xs done)
unfolding from_last
from_last-append [] ys done = refl
from_last-append (x ∷ xs) ys done = from_last-append xs ys (x ∷ done)

-- The layers behind, in the order of the loop.
from_last-back :
    {A : Type 0} (xs ys done : List A) → from_last xs (ys ++ done) ≡ from_last xs ys ++ done
unfolding from_last
from_last-back [] ys done = refl
from_last-back (x ∷ xs) ys done = from_last-back xs (x ∷ ys) done

pub length-from_last :
    {A : Type 0} (xs ys : List A) → length (from_last xs ys) ≡ length xs + length ys
unfolding from_last
length-from_last [] ys = omega arith
length-from_last (x ∷ xs) ys = omega (arith, length-from_last xs (x ∷ ys))

pub from_last-layers :
    {A : Type 0} (front back : List A) (before previous l out : A)
    → from_last (front ++ (before ∷ previous ∷ l ∷ back ++ (out ∷ []))) []
      ≡ out ∷ from_last back [] ++ (l ∷ previous ∷ before ∷ from_last front [])
unfolding from_last
from_last-layers front back before previous l out =
    let upper = l ∷ previous ∷ before ∷ from_last front [] in
    from_last-append front (before ∷ previous ∷ l ∷ back ++ (out ∷ [])) []
    ∙ from_last-append back (out ∷ []) upper
    ∙ ap (◌∷◌ out) (from_last-back back [] upper)
