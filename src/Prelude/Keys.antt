-- ===== src/Prelude/Keys.antt =====
-- Keys of a Go map: an equality test that decides equality, and maps as functions.
use Prim.Native.Nat.{ℕ}
use Prim.Native.String.{String}
use mathlib.Core.Path.{◌≡◌, refl}
use mathlib.Core.Logic.{◌↔◌}
use mathlib.Core.List.{List, [], ◌∷◌}
use mathlib.Core.Bool.{Bool, true, false, ◌&&◌}
use native.Mathlib.Omega.{arith}
use text.Mathlib.Text.{◌==◌ as str_eq}
use text.Mathlib.TextEquality.{eq_iff}
use ditto.Prelude.Tests.{if◌then◌else◌, nat_beq, nat_beq_iff}

-- What Go asks of the type of a map's keys: `==` on it.
pub record MapKey {ℓ} (K : Type ℓ) : Type ℓ where
  pub same : K → K → Bool
  pub same_iff : (j k : K) → (same j k ≡ true) ↔ (j ≡ k)

instance abbrev pub string_key : MapKey String
string_key = record { same = str_eq; same_iff = λ j k. eq_iff j k }

instance abbrev pub nat_key : MapKey ℕ
nat_key = record { same = λ m n. nat_beq m n; same_iff = λ m n. nat_beq_iff m n }

infix 50 ◌==◌
abbrev pub ◌==◌ {ℓ} : {K : Type ℓ} ⦃keys : MapKey K⦄ → K → K → Bool
◌==◌ ⦃keys⦄ j k = keys.same j k

pub ==_refl {ℓ} : {A : Type ℓ} ⦃e : MapKey A⦄ (a : A) → (a == a) ≡ true
==_refl ⦃e⦄ a = (e.same_iff a a).1 refl

-- `m[k] = v` on a map that is read at every key.
abbrev pub update {ℓ κ} : {K : Type ℓ} {V : Type κ} ⦃e : MapKey K⦄ → (K → V) → K → V → K → V
update f k v j = if j == k then v else f j

abbrev pub list_beq : List ℕ → List ℕ → Bool
list_beq [] [] = true
list_beq [] (y ∷ ys) = false
list_beq (x ∷ xs) [] = false
list_beq (x ∷ xs) (y ∷ ys) = nat_beq x y && list_beq xs ys

pub list_beq_iff : (xs ys : List ℕ) → (list_beq xs ys ≡ true) ↔ (xs ≡ ys)
list_beq_iff [] [] = ground arith
list_beq_iff [] (y ∷ ys) = ground arith
list_beq_iff (x ∷ xs) [] = ground arith
list_beq_iff (x ∷ xs) (y ∷ ys) = ground (arith, list_beq_iff xs ys, nat_beq_iff x y)
