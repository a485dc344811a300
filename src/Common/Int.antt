-- ===== src/Common/Int.antt =====
-- Python's integers as far as they are read and compared. `negsuc n` is -(n + 1).
use Prim.Native.Nat.{ℕ}
use mathlib.Core.Bool.{Bool, true, false}
use errander_ai.Common.Tests.{ltb}

pub data ℤ : Type 0 where
  pos negsuc : ℕ → ℤ

-- a < b.
abbrev pub ltb_ℤ : ℤ → ℤ → Bool
ltb_ℤ (pos a) (pos b) = ltb a b
ltb_ℤ (pos a) (negsuc b) = false
ltb_ℤ (negsuc a) (pos b) = true
ltb_ℤ (negsuc a) (negsuc b) = ltb b a
