-- ===== src/Device/Utf8/Groups.antt =====
-- The texts that `is_utf8` accepts.
use esp32_fl.Base.{
  ℕ, zero, suc, ◌≤◌, ◌<◌, ◌≡◌, refl, ◌↔◌, Bool, true, false, List, [], ◌∷◌, arith, length,
}
use esp32_fl.Device.Utf8.{drop, group_size, utf8_from, is_utf8}

abbrev pub Continuation : ℕ → Type 0
Continuation c = (128 ≤ c) × (c < 192)

-- A sequence of groups: a byte below 128, or a leading byte with as many continuation bytes as its
-- upper bits say.
pub data Groups : List ℕ → Type 0 where
  no_group : Groups []
  one_byte : (b : ℕ) (bs : List ℕ) → b < 128 → Groups bs → Groups (b ∷ bs)
  two_bytes :
      (b c : ℕ) (bs : List ℕ) → 192 ≤ b → b < 224 → Continuation c → Groups bs → Groups (b ∷ c ∷ bs)
  three_bytes :
      (b c d : ℕ) (bs : List ℕ)
      → 224 ≤ b
      → b < 240
      → Continuation c
      → Continuation d
      → Groups bs
      → Groups (b ∷ c ∷ d ∷ bs)
  four_bytes :
      (b c d e : ℕ) (bs : List ℕ)
      → 240 ≤ b
      → b < 248
      → Continuation c
      → Continuation d
      → Continuation e
      → Groups bs
      → Groups (b ∷ c ∷ d ∷ e ∷ bs)

size_one : (b : ℕ) (bs : List ℕ) → b < 128 → group_size b bs ≡ 1
size_one b bs h = ground arith

size_two : (b c : ℕ) (bs : List ℕ) → 192 ≤ b → b < 224 → Continuation c → group_size b (c ∷ bs) ≡ 2
size_two b c bs h k (l, m) = ground arith

size_four :
    (b c d e : ℕ) (bs : List ℕ)
    → 240 ≤ b
    → b < 248
    → Continuation c
    → Continuation d
    → Continuation e
    → group_size b (c ∷ d ∷ e ∷ bs) ≡ 4
size_four b c d e bs h k (l, m) (n, o) (p, q) = ground arith

size_three :
    (b c d : ℕ) (bs : List ℕ)
    → 224 ≤ b
    → b < 240
    → Continuation c
    → Continuation d
    → group_size b (c ∷ d ∷ bs) ≡ 3
size_three b c d bs h k (l, m) (n, o) = ground arith

-- Where the loop moves on, it moves over a group.
grow :
    (b : ℕ) (bs : List ℕ) (n : ℕ) → group_size b bs ≡ suc n → Groups (drop n bs) → Groups (b ∷ bs)
grow b bs zero e g = one_byte b bs (ground arith) g
grow b [] (suc zero) e g = absurd (ground arith)
grow b (c ∷ bs) (suc zero) e g =
    two_bytes b c bs (ground arith) (ground arith) (ground arith, ground arith) g
grow b [] (suc (suc zero)) e g = absurd (ground arith)
grow b (c ∷ []) (suc (suc zero)) e g = absurd (ground arith)
grow b (c ∷ d ∷ bs) (suc (suc zero)) e g =
    three_bytes b c d bs (ground arith) (ground arith) (ground arith, ground arith)
      (ground arith, ground arith) g
grow b [] (suc (suc (suc zero))) e g = absurd (ground arith)
grow b (c ∷ []) (suc (suc (suc zero))) e g = absurd (ground arith)
grow b (c ∷ d ∷ []) (suc (suc (suc zero))) e g = absurd (ground arith)
grow b (c ∷ d ∷ f ∷ bs) (suc (suc (suc zero))) e g =
    four_bytes b c d f bs (ground arith) (ground arith) (ground arith, ground arith)
      (ground arith, ground arith) (ground arith, ground arith) g
grow b bs (suc (suc (suc (suc n)))) e g = absurd (ground arith)

round-Groups :
    (fuel b : ℕ) (bs : List ℕ) (size : ℕ)
    → group_size b bs ≡ size
    → ((n : ℕ) → utf8_from fuel (drop n bs) ≡ true → Groups (drop n bs))
    → (elim size as (λ _. Bool) [ zero ↦ false | suc n ↦ utf8_from fuel (drop n bs) ]) ≡ true
    → Groups (b ∷ bs)
round-Groups fuel b bs zero e rest h = cc
round-Groups fuel b bs (suc n) e rest h = grow b bs n e (rest n h)

utf8_from-Groups : (fuel : ℕ) (bs : List ℕ) → utf8_from fuel bs ≡ true → Groups bs
unfolding utf8_from
utf8_from-Groups fuel [] h = no_group
utf8_from-Groups zero (b ∷ bs) h = cc
utf8_from-Groups (suc fuel) (b ∷ bs) h =
    round-Groups fuel b bs (group_size b bs) refl (λ n. utf8_from-Groups fuel (drop n bs)) h

Groups-utf8_from :
    (fuel : ℕ) (bs : List ℕ) → Groups bs → length bs ≤ fuel → utf8_from fuel bs ≡ true
unfolding utf8_from
Groups-utf8_from fuel _ no_group h = refl
Groups-utf8_from zero _ (one_byte b bs k g) h = absurd (omega arith)
Groups-utf8_from zero _ (two_bytes b c bs k l m g) h = absurd (omega arith)
Groups-utf8_from zero _ (three_bytes b c d bs k l m n g) h = absurd (omega arith)
Groups-utf8_from zero _ (four_bytes b c d f bs k l m n o g) h = absurd (omega arith)
Groups-utf8_from (suc fuel) _ (one_byte b bs k g) h =
    rw (size_one b bs k, utf8_from) (Groups-utf8_from fuel bs g (omega arith))
Groups-utf8_from (suc fuel) _ (two_bytes b c bs k l m g) h =
    rw (size_two b c bs k l m, utf8_from) (Groups-utf8_from fuel bs g (omega arith))
Groups-utf8_from (suc fuel) _ (three_bytes b c d bs k l m n g) h =
    rw (size_three b c d bs k l m n, utf8_from) (Groups-utf8_from fuel bs g (omega arith))
Groups-utf8_from (suc fuel) _ (four_bytes b c d f bs k l m n o g) h =
    rw (size_four b c d f bs k l m n o, utf8_from) (Groups-utf8_from fuel bs g (omega arith))

-- `is_utf8` accepts exactly the sequences of groups of a leading byte and its continuation bytes;
-- fuel for as many rounds as there are bytes is enough.
pub is_utf8-Groups : (bs : List ℕ) → (is_utf8 bs ≡ true) ↔ Groups bs
unfolding is_utf8
is_utf8-Groups bs =
    (utf8_from-Groups (length bs) bs, λ g. Groups-utf8_from (length bs) bs g (omega arith))
