-- ===== src/HirOpt/Doubles.antt =====
-- C++'s `double`, which the optimiser computes with on the host: the operations of IEEE 754 on
-- 64-bit patterns. They are a parameter of the optimiser's model.
use hphl.Base.{ℕ, ◌≡◌, Bool, true}
use hphl.Base.Int.{ℤ, is_int64}

pub record Doubles : Type 0 where
  pub add : ℕ → ℕ → ℕ
  pub sub : ℕ → ℕ → ℕ
  pub mul : ℕ → ℕ → ℕ
  pub div : ℕ → ℕ → ℕ
  pub neg : ℕ → ℕ
  -- `a == b` and `a < b`, `a <= b`
  pub eq : ℕ → ℕ → Bool
  pub lt : ℕ → ℕ → Bool
  pub le : ℕ → ℕ → Bool
  -- `(double)a` and `(long long)f`
  pub of_int : ℤ → ℕ
  pub to_int : ℕ → ℤ
  -- A `long long` fits 64 bits.
  pub to_int_fits : (f : ℕ) → is_int64 (to_int f) ≡ true

-- `0.0`
abbrev pub zero_double : ℕ
zero_double = 0
