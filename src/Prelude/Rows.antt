-- ===== src/Prelude/Rows.antt =====
-- Rows that are found by a key.
use Prim.Native.Nat.{ℕ}
use mathlib.Core.Path.{◌≡◌, sym, ap}
use mathlib.Core.Logic.{inl, inr}
use mathlib.Core.Bool.{true}
use mathlib.Core.List.{List, [], ◌∷◌}
use mathlib.Core.Option.{Option, none, some}
use native.Mathlib.Omega.{arith}
use ditto.Prelude.Tests.{if◌then◌else◌, nat_beq, nat_beq_iff}
use ditto.Prelude.Lists.{Member}
use ditto.Prelude.Ids.{mem, AllDifferent}

module _ {A : Type 0} (key : A → ℕ) where
  -- SELECT … WHERE the key is `k`.
  abbrev pub find_by : ℕ → List A → Option A
  find_by k [] = none
  find_by k (x ∷ xs) = if nat_beq (key x) k then some x else find_by k xs

  abbrev pub keys_of : List A → List ℕ
  keys_of [] = []
  keys_of (x ∷ xs) = key x ∷ keys_of xs

  pub mem-keys_of : (a : A) (xs : List A) → Member a xs → mem (key a) (keys_of xs) ≡ true
  mem-keys_of a [] m = absurd m
  mem-keys_of a (x ∷ xs) (inl here) = ground (arith, ap key here, nat_beq_iff (key x) (key a))
  mem-keys_of a (x ∷ xs) (inr m) = ground (arith, mem-keys_of a xs m)

  -- Where the keys differ, a row is found by its key.
  pub find_by_lem :
      (a : A) (xs : List A) → AllDifferent (keys_of xs) → Member a xs → find_by (key a) xs ≡ some a
  find_by_lem a [] u m = absurd m
  find_by_lem a (x ∷ xs) u (inl here) =
      rw ((nat_beq_iff (key x) (key a)).1 (ap key (sym here))) (ap some (sym here))
  find_by_lem a (x ∷ xs) u (inr m) =
      ground (arith, mem-keys_of a xs m, find_by_lem a xs u.1 m, nat_beq_iff (key x) (key a))
