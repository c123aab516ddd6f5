-- ===== src/Prelude/Ids.antt =====
-- Rows by id, and sets of ids as lists.
use Prim.Native.Nat.{ℕ, ◌+◌, ◌≤◌}
use mathlib.Core.Path.{◌≡◌, refl}
use mathlib.Core.List.{List, [], ◌∷◌}
use mathlib.Core.Bool.{Bool, true, false, ◌||◌}
use native.Mathlib.Omega.{arith}
use ditto.Prelude.Tests.{if◌then◌else◌, nat_beq, nat_beq_iff}
use ditto.Prelude.Lists.{length}

-- Is `k` among the ids?
abbrev pub mem : ℕ → List ℕ → Bool
mem k [] = false
mem k (j ∷ js) = nat_beq j k || mem k js

-- A set of ids, without repetitions.
abbrev pub distinct : List ℕ → List ℕ
distinct [] = []
distinct (j ∷ js) = if mem j js then distinct js else j ∷ distinct js

pub mem-distinct : (k : ℕ) (js : List ℕ) → mem k (distinct js) ≡ mem k js
mem-distinct k [] = refl
mem-distinct k (j ∷ js) = ground (arith, mem-distinct k js, nat_beq_iff j k)

abbrev remove : ℕ → List ℕ → List ℕ
remove k [] = []
remove k (j ∷ js) = if nat_beq j k then js else j ∷ remove k js

length-remove : (k : ℕ) (js : List ℕ) → mem k js ≡ true → length (remove k js) + 1 ≡ length js
length-remove k [] h = absurd (ground arith)
length-remove k (j ∷ js) h = ground (arith, length-remove k js)

mem-remove :
    (k i : ℕ) (js : List ℕ) → nat_beq i k ≡ false → mem i js ≡ true → mem i (remove k js) ≡ true
mem-remove k i [] ne h = h
mem-remove k i (j ∷ js) ne h = ground (arith, mem-remove k i js ne)

-- Ids that are all different.
abbrev pub AllDifferent : List ℕ → Type 0
AllDifferent [] = Unit
AllDifferent (j ∷ js) = (mem j js ≡ false) × AllDifferent js

abbrev pub AllIn : List ℕ → List ℕ → Type 0
AllIn [] js = Unit
AllIn (k ∷ ks) js = (mem k js ≡ true) × AllIn ks js

AllIn-remove : (k : ℕ) (ks js : List ℕ) → mem k ks ≡ false → AllIn ks js → AllIn ks (remove k js)
AllIn-remove k [] js ne h = tt
AllIn-remove k (i ∷ ks) js ne h =
    (mem-remove k i js (ground arith) h.0, AllIn-remove k ks js (ground arith) h.1)

-- Different ids in a list are no more than it has.
pub length-le_of_AllIn : (ks js : List ℕ) → AllDifferent ks → AllIn ks js → length ks ≤ length js
length-le_of_AllIn [] js u h = omega arith
length-le_of_AllIn (k ∷ ks) js u h = omega (
  arith,
  length-remove k js h.0,
  length-le_of_AllIn ks (remove k js) u.1 (AllIn-remove k ks js u.0 h.1),
)
