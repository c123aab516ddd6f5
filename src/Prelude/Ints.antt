-- ===== src/Prelude/Ints.antt =====
-- Signed integers, as far as the settings need them: `negsuc n` is -(n + 1).
use Prim.Native.Nat.{ℕ}
use mathlib.Core.Bool.{Bool, false, ◌&&◌}
use ditto.Prelude.Tests.{leb}

pub data ℤ : Type 0 where
  pos : ℕ → ℤ
  negsuc : ℕ → ℤ

-- The rounds of a loop `for range n`.
abbrev pub rounds : ℤ → ℕ
rounds (pos n) = n
rounds (negsuc n) = 0

abbrev pub is_zero : ℤ → Bool
is_zero (pos n) = leb n 0
is_zero (negsuc n) = false

-- lo ≤ n ≤ hi, for bounds that are not negative.
abbrev pub in_range : ℕ → ℕ → ℤ → Bool
in_range lo hi (pos n) = leb lo n && leb n hi
in_range lo hi (negsuc n) = false

abbrev pub at_least : ℕ → ℤ → Bool
at_least lo (pos n) = leb lo n
at_least lo (negsuc n) = false
