-- ===== src/Float.antt =====
-- C's floating-point arithmetic: what the code does with `float` and `double`. The arithmetic is
-- the processor's and the C library's, so it is a parameter, and no law of it is assumed here.
use esp32_fl.Base.{ℕ, Bool}

-- A `float` is widened by `widen` where the code mixes it with a `double` or passes it to `exp`
-- and `log`, and a `double` is narrowed by `narrow` where it is stored in a `float`. The integer
-- of `of_int` and `of_int_d` is the bit pattern of an `int`, and `literal m k` is the constant m / 10^k.
pub record FloatArith : Type 1 where
  pub F : Type 0
  pub D : Type 0
  pub widen : F → D
  pub narrow : D → F
  pub of_int : ℕ → F
  pub of_int_d : ℕ → D
  pub add : F → F → F
  pub mul : F → F → F
  pub div : F → F → F
  pub neg : F → F
  pub gt : F → F → Bool
  pub ge : F → F → Bool
  pub eq : F → F → Bool
  pub add_d : D → D → D
  pub mul_d : D → D → D
  pub div_d : D → D → D
  pub one_d : D
  pub literal : ℕ → ℕ → D
  pub neg_d : D → D
  pub exp : D → D
  pub log : D → D
