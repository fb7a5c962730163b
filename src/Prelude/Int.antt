-- ===== src/Prelude/Int.antt =====
-- Signed integers over the native numbers, as far as the program compares them with 0.
use Prim.Native.Nat.{ℕ}
use mathlib.Core.Bool.{Bool, false}
use newapi_box.Prelude.Tests.{ltb}

-- `negsuc n` is -(n + 1).
pub data ℤ : Type 0 where
  pos : ℕ → ℤ
  negsuc : ℕ → ℤ

-- 0 < n
abbrev pub is_positive : ℤ → Bool
is_positive (pos n) = ltb 0 n
is_positive (negsuc n) = false
