-- ===== src/Common/Int.antt =====
-- Go's `int` and `time.Duration` as integers, of which the program asks only whether they are
-- positive.
use thalassa_workload_identi.Common.Tests.{ltb}
use Prim.Native.Nat.{ℕ}
use mathlib.Core.Bool.{Bool, false}

-- `negsuc n` is -(n + 1).
pub data ℤ : Type 0 where
  pos : ℕ → ℤ
  negsuc : ℕ → ℤ

abbrev pub is_positive : ℤ → Bool
is_positive (pos n) = ltb 0 n
is_positive (negsuc n) = false
