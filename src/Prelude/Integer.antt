-- ===== src/Prelude/Integer.antt =====
-- Integers over the native numbers, with the comparisons that the program makes of prices.
use Prim.Native.Nat.{ℕ}
use mathlib.Core.Bool.{Bool, true, false}
use tabdeal_futures_signal_b.Prelude.Tests.{ltb, leb}

-- `negsuc n` is -(n + 1).
pub data ℤ : Type 0 where
  pos : ℕ → ℤ
  negsuc : ℕ → ℤ

abbrev pub ltb_ℤ : ℤ → ℤ → Bool
ltb_ℤ (pos a) (pos b) = ltb a b
ltb_ℤ (pos a) (negsuc b) = false
ltb_ℤ (negsuc a) (pos b) = true
ltb_ℤ (negsuc a) (negsuc b) = ltb b a

abbrev pub leb_ℤ : ℤ → ℤ → Bool
leb_ℤ (pos a) (pos b) = leb a b
leb_ℤ (pos a) (negsuc b) = false
leb_ℤ (negsuc a) (pos b) = true
leb_ℤ (negsuc a) (negsuc b) = leb b a
