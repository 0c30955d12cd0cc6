-- ===== src/Prelude/Int.antt =====
-- The values of Go's `int` that the configuration reads: signed, and compared with constants.
use Prim.Native.Nat.{ℕ}
use mathlib.Core.Bool.{Bool, true, false}
use dabri.Prelude.Tests.{ltb}

-- `negsuc n` is -(n + 1).
pub data ℤ : Type 0 where
  pos : ℕ → ℤ
  negsuc : ℕ → ℤ

-- i < n
abbrev pub below : ℤ → ℕ → Bool
below (pos i) n = ltb i n
below (negsuc i) n = true

-- i > n
abbrev pub above : ℤ → ℕ → Bool
above (pos i) n = ltb n i
above (negsuc i) n = false
