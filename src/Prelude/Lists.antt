-- ===== src/Prelude/Lists.antt =====
-- Lists measured by native numbers, filtered and counted by Boolean tests.
use Prim.Native.Nat.{ℕ, zero, suc, ◌+◌, ◌≤◌}
use mathlib.Core.Path.{◌≡◌, refl, ap}
use mathlib.Core.List.{List, [], ◌∷◌, ◌++◌}
use mathlib.Core.Logic.{◌⊎◌}
use mathlib.Core.Bool.{Bool, true, false}
use native.Mathlib.Omega.{arith}
use ditto.Prelude.Tests.{if◌then◌else◌}

module _ {ℓ} {A : Type ℓ} where
  abbrev pub length : List A → ℕ
  length [] = 0
  length (x ∷ xs) = suc (length xs)

  abbrev pub take : ℕ → List A → List A
  take zero xs = []
  take (suc n) [] = []
  take (suc n) (x ∷ xs) = x ∷ take n xs

  abbrev pub drop : ℕ → List A → List A
  drop zero xs = xs
  drop (suc n) [] = []
  drop (suc n) (x ∷ xs) = drop n xs

  -- The items that pass a test, in order.
  abbrev pub keep : (A → Bool) → List A → List A
  keep p [] = []
  keep p (x ∷ xs) = if p x then x ∷ keep p xs else keep p xs

  -- How many items pass a test.
  abbrev pub count_if : (A → Bool) → List A → ℕ
  count_if p [] = 0
  count_if p (x ∷ xs) = (if p x then 1 else 0) + count_if p xs

  pub length-append : (xs ys : List A) → length (xs ++ ys) ≡ length xs + length ys
  length-append [] ys = omega arith
  length-append (x ∷ xs) ys = omega (arith, length-append xs ys)

  pub length-keep : (p : A → Bool) (xs : List A) → length (keep p xs) ≡ count_if p xs
  length-keep p [] = refl
  length-keep p (x ∷ xs) = ground (arith, length-keep p xs)

  pub keep-append : (p : A → Bool) (xs ys : List A) → keep p (xs ++ ys) ≡ keep p xs ++ keep p ys
  keep-append p [] ys = refl
  keep-append p (x ∷ xs) ys = ground (arith, keep-append p xs ys)

  pub count_if-append :
      (p : A → Bool) (xs ys : List A) → count_if p (xs ++ ys) ≡ count_if p xs + count_if p ys
  count_if-append p [] ys = omega arith
  count_if-append p (x ∷ xs) ys = omega (arith, count_if-append p xs ys)

  -- A list that is no longer than `n` is taken whole.
  pub take_whole : (xs : List A) (n : ℕ) → length xs ≤ n → take n xs ≡ xs
  take_whole [] zero short = refl
  take_whole [] (suc n) short = refl
  take_whole (x ∷ xs) zero short = absurd (omega arith)
  take_whole (x ∷ xs) (suc n) short = rw (take_whole xs n (omega arith))

  pub take-append-drop : (n : ℕ) (xs : List A) → take n xs ++ drop n xs ≡ xs
  take-append-drop zero xs = refl
  take-append-drop (suc n) [] = refl
  take-append-drop (suc n) (x ∷ xs) = ap (◌∷◌ x) (take-append-drop n xs)

  -- A test that only passes where a coarser one does counts the same after the coarser filter.
  pub count_if-keep :
      (p q : A → Bool)
      → ((x : A) → p x ≡ true → q x ≡ true)
      → (xs : List A) → count_if p (keep q xs) ≡ count_if p xs
  count_if-keep p q sub [] = refl
  count_if-keep p q sub (x ∷ xs) = ground (arith, sub x, count_if-keep p q sub xs)

  -- A finer filter after a coarser one is the finer one; after one that it excludes, nothing.
  pub keep-keep :
      (p q : A → Bool)
      → ((x : A) → p x ≡ true → q x ≡ true)
      → (xs : List A) → keep p (keep q xs) ≡ keep p xs
  keep-keep p q sub [] = refl
  keep-keep p q sub (x ∷ xs) = ground (arith, sub x, keep-keep p q sub xs)

  pub keep-keep_disjoint :
      (p q : A → Bool)
      → ((x : A) → p x ≡ true → q x ≡ false)
      → (xs : List A) → keep p (keep q xs) ≡ []
  keep-keep_disjoint p q sub [] = refl
  keep-keep_disjoint p q sub (x ∷ xs) = ground (arith, sub x, keep-keep_disjoint p q sub xs)

-- `x` is an item of the list, at a place that the proof tells.
abbrev pub Member : {A : Type 0} → A → List A → Type 0
Member x [] = ⊥
Member x (y ∷ ys) = (x ≡ y) ⊎ Member x ys

module _ {ℓ} {A : Type ℓ} where
  pub count_if_mono :
      (p q : A → Bool)
      → ((x : A) → p x ≡ true → q x ≡ true)
      → (xs : List A) → count_if p xs ≤ count_if q xs
  count_if_mono p q sub [] = omega arith
  count_if_mono p q sub (x ∷ xs) = ground (arith, sub x, count_if_mono p q sub xs)

  pub count_if_congr :
      (p q : A → Bool) → ((x : A) → p x ≡ q x) → (xs : List A) → count_if p xs ≡ count_if q xs
  count_if_congr p q same [] = refl
  count_if_congr p q same (x ∷ xs) = ground (arith, same x, count_if_congr p q same xs)

  pub count_if_none : (p : A → Bool) → ((x : A) → p x ≡ false) → (xs : List A) → count_if p xs ≡ 0
  count_if_none p never [] = refl
  count_if_none p never (x ∷ xs) = ground (arith, never x, count_if_none p never xs)
