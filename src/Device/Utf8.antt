-- ===== src/Device/Utf8.antt =====
-- `is_utf8` of the device's httpclient.c. A text is the list of its bytes up to the terminator,
-- which is read as 0; a mask of the upper bits is a division.
pub mod Groups
use esp32_fl.Base.{
  ℕ, zero, suc, ◌/◌, Bool, true, false, ◌&&◌, List, [], ◌∷◌, ◌==◌, length, if◌then◌else◌,
}

-- `str[i]`
abbrev pub byte_at : List ℕ → ℕ → ℕ
byte_at [] i = 0
byte_at (b ∷ bs) zero = b
byte_at (b ∷ bs) (suc i) = byte_at bs i

abbrev pub drop : ℕ → List ℕ → List ℕ
drop zero bs = bs
drop (suc n) [] = []
drop (suc n) (b ∷ bs) = drop n bs

-- `(c & 0xC0) == 0x80`
abbrev pub continues : ℕ → Bool
continues c = c / 64 == 2

-- How far one round of the loop moves on, and 0 where it returns 0.
abbrev pub group_size : ℕ → List ℕ → ℕ
group_size b bs =
    if b / 128 == 0
    then 1
    else if b / 32 == 6
    then (if continues (byte_at bs 0) then 2 else 0)
    else if b / 16 == 14
    then (if continues (byte_at bs 0) && continues (byte_at bs 1) then 3 else 0)
    else if b / 8 == 30
    then (if continues (byte_at bs 0) && continues (byte_at bs 1) && continues (byte_at bs 2)
        then 4
        else 0)
    else 0

-- The loop, with fuel for as many rounds as there are bytes.
pub utf8_from : ℕ → List ℕ → Bool
utf8_from fuel [] = true
utf8_from zero (b ∷ bs) = false
utf8_from (suc fuel) (b ∷ bs) = elim (group_size b bs) [
  | zero ↦ false
  | suc n ↦ utf8_from fuel (drop n bs)
]

pub is_utf8 : List ℕ → Bool
is_utf8 bs = utf8_from (length bs) bs
