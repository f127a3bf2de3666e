-- ===== src/Floats.antt =====
-- Python's floating-point numbers as a parameter: antt has none. An operation may raise, as a division
-- by zero and a conversion that overflows do. Integers below zero come from `round` and `floor`.
use pyserum.Base.{ℕ, ℤ, Result}

pub record Floats : Type 1 where
  pub Float : Type 0
  -- float(n), n / m, x * n, x / n, n / m with a signed n
  pub of_int : ℕ → Result Float
  pub true_div : ℕ → ℕ → Result Float
  pub mul_int : Float → ℕ → Result Float
  pub div_int : Float → ℕ → Result Float
  pub signed_div : ℤ → ℕ → Result Float
  -- x * y and the literal 1.01
  pub mul : Float → Float → Result Float
  pub one_and_a_hundredth : Float
  -- round(x), math.floor(x), int(x)
  pub round : Float → Result ℤ
  pub floor : Float → Result ℤ
  pub truncate : Float → Result ℤ
