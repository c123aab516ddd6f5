-- ===== src/Prelude/Parts.antt =====
-- The parts of a list: what is taken of it and dropped, its items, and its permutations.
use Prim.Native.Nat.{ℕ, zero, suc, ◌+◌, ◌-◌, ◌≤◌}
use mathlib.Core.Path.{◌≡◌, refl, sym, ap, ◌∙◌}
use mathlib.Core.Logic.{◌⊎◌, inl, inr}
use mathlib.Core.Bool.{Bool, true, false}
use mathlib.Core.List.{List, [], ◌∷◌, ◌++◌, Permᴰ}
use native.Mathlib.Omega.{arith}
use ditto.Prelude.Lists.{length, take, drop, keep, Member}
use ditto.Prelude.Tests.{if◌then◌else◌}

module _ {A : Type 0} where
  pub take_nil : (n : ℕ) → take {A = A} n [] ≡ []
  take_nil zero = refl
  take_nil (suc n) = refl

  pub drop_nil : (n : ℕ) → drop {A = A} n [] ≡ []
  drop_nil zero = refl
  drop_nil (suc n) = refl

  pub take_add : (m n : ℕ) (xs : List A) → take (m + n) xs ≡ take m xs ++ take n (drop m xs)
  take_add zero n xs = ap (λ k. take k xs) (omega arith)
  take_add (suc m) n [] = take_nil (suc m + n) ∙ sym (take_nil n)
  take_add (suc m) n (x ∷ xs) =
      ap (λ k. take k (x ∷ xs)) {x = suc m + n} {y = suc (m + n)} (omega arith)
      ∙ ap (◌∷◌ x) (take_add m n xs)

  pub drop_add : (m n : ℕ) (xs : List A) → drop n (drop m xs) ≡ drop (m + n) xs
  drop_add zero n xs = ap (λ k. drop k xs) {x = n} {y = 0 + n} (omega arith)
  drop_add (suc m) n [] = drop_nil n ∙ sym (drop_nil (suc m + n))
  drop_add (suc m) n (x ∷ xs) =
      drop_add m n xs ∙ ap (λ k. drop k (x ∷ xs)) {x = suc (m + n)} {y = suc m + n} (omega arith)

  pub drop_all : (n : ℕ) (xs : List A) → length xs ≤ n → drop n xs ≡ []
  drop_all zero [] short = refl
  drop_all zero (x ∷ xs) short = absurd (omega arith)
  drop_all (suc n) [] short = refl
  drop_all (suc n) (x ∷ xs) short = drop_all n xs (omega arith)

  pub length-drop : (n : ℕ) (xs : List A) → length (drop n xs) ≡ length xs - n
  length-drop zero xs = omega arith
  length-drop (suc n) [] = omega arith
  length-drop (suc n) (x ∷ xs) = omega (arith, length-drop n xs)

  pub length-perm : {xs ys : List A} → Permᴰ xs ys → length xs ≡ length ys
  length-perm Permᴰ.nil = refl
  length-perm (Permᴰ.cons e p) = ap suc (length-perm p)
  length-perm (Permᴰ.swap e e') = refl
  length-perm (Permᴰ.trans p q) = length-perm p ∙ length-perm q

  pub Member-perm : (a : A) {xs ys : List A} → Permᴰ xs ys → Member a xs → Member a ys
  Member-perm a Permᴰ.nil m = m
  Member-perm a (Permᴰ.cons e p) (inl here) = inl (here ∙ e)
  Member-perm a (Permᴰ.cons e p) (inr m) = inr (Member-perm a p m)
  Member-perm a (Permᴰ.swap e e') (inl here) = inr (inl (here ∙ e))
  Member-perm a (Permᴰ.swap e e') (inr (inl here)) = inl (here ∙ e')
  Member-perm a (Permᴰ.swap e e') (inr (inr m)) = inr (inr m)
  Member-perm a (Permᴰ.trans p q) m = Member-perm a q (Member-perm a p m)

  pub Member-take : (a : A) (n : ℕ) (xs : List A) → Member a (take n xs) → Member a xs
  Member-take a zero xs m = absurd m
  Member-take a (suc n) [] m = m
  Member-take a (suc n) (x ∷ xs) (inl here) = inl here
  Member-take a (suc n) (x ∷ xs) (inr m) = inr (Member-take a n xs m)

  pub Member-drop : (a : A) (n : ℕ) (xs : List A) → Member a (drop n xs) → Member a xs
  Member-drop a zero xs m = m
  Member-drop a (suc n) [] m = m
  Member-drop a (suc n) (x ∷ xs) m = inr (Member-drop a n xs m)

  Member-if :
      (a x : A) (b : Bool) (xs : List A)
      → Member a (if b then x ∷ xs else xs)
      → ((a ≡ x) × (b ≡ true)) ⊎ Member a xs
  Member-if a x true xs (inl here) = inl (here, refl)
  Member-if a x true xs (inr m) = inr m
  Member-if a x false xs m = inr m

  pub Member-keep :
      (a : A) (p : A → Bool) (xs : List A) → Member a (keep p xs) → Member a xs × (p a ≡ true)
  Member-keep a p [] m = absurd m
  Member-keep a p (x ∷ xs) m = elim (Member-if a x (p x) (keep p xs) m) [
    | inl (here, ok) ↦ (inl here, ap p here ∙ ok)
    | inr later ↦ let (there, ok) = Member-keep a p xs later in (inr there, ok)
  ]
