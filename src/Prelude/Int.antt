-- ===== src/Prelude/Int.antt =====
-- Python's `int` where a value may be negative. `negsuc n` is -(n + 1).
use Prim.Native.Nat.{ℕ, zero, suc, ◌-◌, ◌%◌, ◌<◌}
use mathlib.Core.Path.{◌≡◌}
use mathlib.Core.Bool.{Bool, true, false}
use native.Mathlib.Omega.{arith}
use fish_async_task.Prelude.Tests.{ltb}

pub data ℤ : Type 0 where
  pos : ℕ → ℤ
  negsuc : ℕ → ℤ

-- `a < b`
abbrev pub lt_int : ℤ → ℤ → Bool
lt_int (pos a) (pos b) = ltb a b
lt_int (pos a) (negsuc b) = false
lt_int (negsuc a) (pos b) = true
lt_int (negsuc a) (negsuc b) = ltb b a

pub lt_int_asymm : (a b : ℤ) → lt_int a b ≡ true → lt_int b a ≡ false
lt_int_asymm (pos a) (pos b) h = ground arith
lt_int_asymm (pos a) (negsuc b) h = ground arith
lt_int_asymm (negsuc a) (pos b) h = ground arith
lt_int_asymm (negsuc a) (negsuc b) h = ground arith

pub not-lt_int_trans : (a b c : ℤ) → lt_int b a ≡ false → lt_int c b ≡ false → lt_int c a ≡ false
not-lt_int_trans (pos a) (pos b) (pos c) h k = ground arith
not-lt_int_trans (pos a) (pos b) (negsuc c) h k = ground arith
not-lt_int_trans (pos a) (negsuc b) (pos c) h k = ground arith
not-lt_int_trans (pos a) (negsuc b) (negsuc c) h k = ground arith
not-lt_int_trans (negsuc a) (pos b) (pos c) h k = ground arith
not-lt_int_trans (negsuc a) (pos b) (negsuc c) h k = ground arith
not-lt_int_trans (negsuc a) (negsuc b) (pos c) h k = ground arith
not-lt_int_trans (negsuc a) (negsuc b) (negsuc c) h k = ground arith

-- `a % n` for a positive `n`: the result is never negative.
abbrev pub mod_int : ℤ → ℕ → ℕ
mod_int (pos a) n = a % n
mod_int (negsuc a) n = n - suc (a % n)

pub mod_int-lt : (a : ℤ) (n : ℕ) → 0 < n → mod_int a n < n
mod_int-lt (pos a) n h = omega arith
mod_int-lt (negsuc a) n h = omega arith

-- `a + 1`
abbrev pub succ_int : ℤ → ℤ
succ_int (pos a) = pos (suc a)
succ_int (negsuc zero) = pos 0
succ_int (negsuc (suc a)) = negsuc a

-- `a - 1`
abbrev pub pred_int : ℤ → ℤ
pred_int (pos zero) = negsuc 0
pred_int (pos (suc a)) = pos a
pred_int (negsuc a) = negsuc (suc a)

-- `a > 0`
abbrev pub positive : ℤ → Bool
positive (pos zero) = false
positive (pos (suc a)) = true
positive (negsuc a) = false
