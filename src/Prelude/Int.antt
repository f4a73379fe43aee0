-- ===== src/Prelude/Int.antt =====
-- Signed integers over the native numbers, under the library's names, with the tests that C++ makes
-- on an `int` or an `ssize_t`.
use Prim.Native.Nat.{ℕ, zero, suc}
use mathlib.Core.Path.{◌≡◌, refl}
use mathlib.Core.Logic.{◌↔◌}
use mathlib.Core.Bool.{Bool, true, false}
use native.Mathlib.Omega.{arith}
use nsu_net_course.Prelude.Tests.{if◌then◌else◌, ltb, ◌==◌}

-- `negsuc n` is -(n + 1).
pub data ℤ : Type 0 where
  pos : ℕ → ℤ
  negsuc : ℕ → ℤ

-- `x == 0`
abbrev pub is_zero : ℤ → Bool
is_zero (pos n) = n == 0
is_zero (negsuc n) = false

-- `x > 0`
abbrev pub is_positive : ℤ → Bool
is_positive (pos n) = ltb 0 n
is_positive (negsuc n) = false

-- `x < 0`
abbrev pub is_negative : ℤ → Bool
is_negative (pos n) = false
is_negative (negsuc n) = true

-- `x == y`
abbrev pub same : ℤ → ℤ → Bool
same (pos a) (pos b) = a == b
same (negsuc a) (negsuc b) = a == b
same (pos a) (negsuc b) = false
same (negsuc a) (pos b) = false

-- `x < y`
abbrev pub ltb_ℤ : ℤ → ℤ → Bool
ltb_ℤ (pos a) (pos b) = ltb a b
ltb_ℤ (negsuc a) (negsuc b) = ltb b a
ltb_ℤ (pos a) (negsuc b) = false
ltb_ℤ (negsuc a) (pos b) = true

-- `x + 1`
abbrev pub suc_ℤ : ℤ → ℤ
suc_ℤ (pos n) = pos (suc n)
suc_ℤ (negsuc n) = elim n [ zero ↦ pos 0 | suc m ↦ negsuc m ]

-- The value of an integer that is not negative.
abbrev pub magnitude : ℤ → ℕ
magnitude (pos n) = n
magnitude (negsuc n) = 0

pub same_iff : (a b : ℤ) → (same a b ≡ true) ↔ (a ≡ b)
same_iff a b = ground arith

-- The larger of two integers.
abbrev pub max_ℤ : ℤ → ℤ → ℤ
max_ℤ a b = if ltb_ℤ b a then a else b

pub ltb_ℤ-suc : (a : ℤ) → ltb_ℤ a (suc_ℤ a) ≡ true
ltb_ℤ-suc (pos n) = ground arith
ltb_ℤ-suc (negsuc zero) = refl
ltb_ℤ-suc (negsuc (suc n)) = ground arith

pub ltb_ℤ-max : (a b : ℤ) → ltb_ℤ a (max_ℤ (suc_ℤ a) b) ≡ true
ltb_ℤ-max (pos a) (pos b) = ground arith
ltb_ℤ-max (pos a) (negsuc b) = ground arith
ltb_ℤ-max (negsuc zero) (pos b) = ground arith
ltb_ℤ-max (negsuc zero) (negsuc b) = ground arith
ltb_ℤ-max (negsuc (suc a)) (pos b) = ground arith
ltb_ℤ-max (negsuc (suc a)) (negsuc b) = ground arith

pub max_ℤ-ge_right : (a b : ℤ) → ltb_ℤ (max_ℤ a b) b ≡ false
max_ℤ-ge_right a b = ground arith

-- What is below `n` is below all that does not fall under `n`.
pub ltb_ℤ-trans : (a n m : ℤ) → ltb_ℤ a n ≡ true → ltb_ℤ m n ≡ false → ltb_ℤ a m ≡ true
ltb_ℤ-trans (pos a) (pos n) (pos m) h g = ground arith
ltb_ℤ-trans (pos a) (pos n) (negsuc m) h g = ground arith
ltb_ℤ-trans (pos a) (negsuc n) m h g = ground arith
ltb_ℤ-trans (negsuc a) (pos n) (pos m) h g = refl
ltb_ℤ-trans (negsuc a) (pos n) (negsuc m) h g = ground arith
ltb_ℤ-trans (negsuc a) (negsuc n) (pos m) h g = refl
ltb_ℤ-trans (negsuc a) (negsuc n) (negsuc m) h g = ground arith

pub ltb_ℤ-refl : (a : ℤ) → ltb_ℤ a a ≡ false
ltb_ℤ-refl a = ground arith

pub geb_ℤ-trans : (a n m : ℤ) → ltb_ℤ n a ≡ false → ltb_ℤ m n ≡ false → ltb_ℤ m a ≡ false
geb_ℤ-trans a n m h g = ground arith
