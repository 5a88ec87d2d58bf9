-- ===== src/Prelude/Int.antt =====
-- Integers over the native numbers, as far as return values of the C library need them.
use Prim.Native.Nat.{ℕ}
use mathlib.Core.Bool.{Bool, true, false}
use osnt_plus.Prelude.Tests.{◌==◌, ltb}

-- `negsuc n` is -(n + 1).
pub data ℤ : Type 0 where
  pos : ℕ → ℤ
  negsuc : ℕ → ℤ

-- The test `i == n`, for `n` that is not negative.
abbrev pub is_pos : ℕ → ℤ → Bool
is_pos n (pos k) = k == n
is_pos n (negsuc k) = false

abbrev pub is_positive : ℤ → Bool
is_positive (pos k) = ltb 0 k
is_positive (negsuc k) = false

abbrev pub is_negative : ℤ → Bool
is_negative (pos k) = false
is_negative (negsuc k) = true
