-- ===== src/Scan/Pairing/Once.antt =====
-- The pairing that the size accumulator and the partial-hash grouper share (internal/scan/accumulator.go
-- and grouper.go) sends no item more often than it comes.
use ditto.Prelude.{
  ◌+◌, ◌≤◌, ◌≡◌, ◌⊎◌, inl, inr, List, [], ◌∷◌, Option-cases, arith, some, Bool, true, false,
  count_if, count_if-append, Bool-cases, MapKey, ◌==◌,
}
use ditto.Scan.Goroutine.{consume}
use ditto.Scan.Pairing.{Pairs, pair_step, no_pairs, count_if-consume_zero}

module _ {K A : Type 0} ⦃e : MapKey K⦄ (key : A → K) (p : A → Bool) where
  -- Nothing that passes the test is kept back, but under the key `k`.
  abbrev HeldAt : K → Pairs K A → Type 0
  HeldAt k s = (j : K) (y : A) → s.first j ≡ some y → (j == k) ≡ false → p y ≡ false

  abbrev HeldNowhere : Pairs K A → Type 0
  HeldNowhere s = (j : K) (y : A) → s.first j ≡ some y → p y ≡ false

  abbrev sent_by : Pairs K A → A → List A
  sent_by s x = (pair_step key s x).1

  abbrev next_of : Pairs K A → A → Pairs K A
  next_of s x = (pair_step key s x).0

  consume-cons :
      (s : Pairs K A) (x : A) (xs : List A)
      → count_if p (consume (pair_step key) s (x ∷ xs)).1
        ≡ count_if p (sent_by s x) + count_if p (consume (pair_step key) (next_of s x) xs).1
  unfolding consume
  consume-cons s x xs = count_if-append p (sent_by s x) (consume (pair_step key) (next_of s x) xs).1

  -- While the item is kept back under its key.
  step_held :
      (k : K) (s : Pairs K A) (x : A)
      → HeldAt k s
      → p x ≡ false
      → ((count_if p (sent_by s x) ≡ 0) × HeldAt k (next_of s x))
        ⊎ ((count_if p (sent_by s x) ≤ 1) × HeldNowhere (next_of s x))
  unfolding pair_step
  step_held k s x held absent = elim (Bool-cases (s.seen (key x))) [
    | inl old ↦ inl (ground arith, λ j z at ne. ground (arith, held j z))
    | inr new ↦ elim (Option-cases (s.first (key x))) [
      | inl fresh ↦ inl (ground arith, λ j z at ne. ground (arith, held j z))
      | inr (y, at) ↦ elim (Bool-cases (key x == k)) [
        | inl same ↦ inr (
          ground arith,
          λ j z here.
              ground (arith, held j z, e.same_iff (key x) k, e.same_iff j k, e.same_iff j (key x)),
        )
        | inr other ↦ inl (ground (arith, held (key x) y), λ j z here ne. ground (arith, held j z))
      ]
    ]
  ]

  count_if-consume_held :
      (k : K) (s : Pairs K A) (xs : List A)
      → HeldAt k s
      → count_if p xs ≡ 0
      → count_if p (consume (pair_step key) s xs).1 ≤ 1
  unfolding consume
  count_if-consume_held k s [] held absent = omega arith
  count_if-consume_held k s (x ∷ xs) held absent = elim (step_held k s x held (ground arith)) [
    | inl (none_sent, held') ↦
        omega (
          arith,
          consume-cons s x xs,
          count_if-consume_held k (next_of s x) xs held' (ground arith),
        )
    | inr (one_sent, nowhere) ↦ omega (
      arith,
      consume-cons s x xs,
      count_if-consume_zero key p (next_of s x) xs nowhere (ground arith),
    )
  ]

  -- When the item itself comes, it is sent or kept back.
  step_arrives :
      (s : Pairs K A) (x : A)
      → HeldNowhere s
      → p x ≡ true
      → ((count_if p (sent_by s x) ≡ 0) × HeldAt (key x) (next_of s x))
        ⊎ ((count_if p (sent_by s x) ≤ 1) × HeldNowhere (next_of s x))
  unfolding pair_step
  step_arrives s x held here = elim (Bool-cases (s.seen (key x))) [
    | inl old ↦ inr (ground arith, λ j z at. ground (arith, held j z))
    | inr new ↦ elim (Option-cases (s.first (key x))) [
      | inl fresh ↦ inl (ground arith, λ j z at ne. ground (arith, held j z))
      | inr (y, at) ↦ inr (ground (arith, held (key x) y), λ j z at'. ground (arith, held j z))
    ]
  ]

  step_passes :
      (s : Pairs K A) (x : A)
      → HeldNowhere s
      → p x ≡ false
      → (count_if p (sent_by s x) ≡ 0) × HeldNowhere (next_of s x)
  unfolding pair_step
  step_passes s x held absent = elim (Option-cases (s.first (key x))) [
    | inl new ↦ (ground arith, λ j y at. ground (arith, held j y))
    | inr (prev, old) ↦ (ground (arith, held (key x) prev), λ j y at. ground (arith, held j y))
  ]

  once_from :
      (s : Pairs K A) (xs : List A)
      → HeldNowhere s
      → count_if p xs ≤ 1
      → count_if p (consume (pair_step key) s xs).1 ≤ 1
  unfolding consume
  once_from s [] held once = omega arith
  once_from s (x ∷ xs) held once = elim (Bool-cases (p x)) [
    | inr absent ↦
        let (none_sent, held') = step_passes s x held absent in
        omega (arith, consume-cons s x xs, once_from (next_of s x) xs held' (ground arith))
    | inl here ↦
        let no_more : count_if p xs ≡ 0 = ground arith in
        elim (step_arrives s x held here) [
          | inl (none_sent, held') ↦ omega (
            arith,
            consume-cons s x xs,
            count_if-consume_held (key x) (next_of s x) xs held' no_more,
          )
          | inr (one_sent, nowhere) ↦ omega (
            arith,
            consume-cons s x xs,
            count_if-consume_zero key p (next_of s x) xs nowhere no_more,
          )
        ]
  ]

  -- What comes at most once is sent at most once.
  pub consume_once :
      (xs : List A)
      → count_if p xs ≤ 1
      → count_if p (consume (pair_step key) (no_pairs key) xs).1 ≤ 1
  consume_once xs once = once_from (no_pairs key) xs (λ j y at. cc) once
