-- ===== src/Scan/Pairing.antt =====
-- What the size accumulator and the partial-hash grouper share (internal/scan/accumulator.go and
-- grouper.go): the first item of a key is kept back, the second releases both, later ones pass.
pub mod Once
use ditto.Prelude.{
  ◌≤◌, ◌≡◌, refl, inl, inr, List, [], ◌∷◌, ◌++◌, append_assoc, append-nil, ◌∙◌, Option-cases, arith,
  if◌then◌else◌, Option, none, some, Bool, true, false, leb, length, keep, keep-append, count_if,
  count_if-keep, count_if-append, length-keep, Bool-cases, MapKey, ◌==◌, update,
}
use ditto.Scan.Goroutine.{consume}

-- The maps `first` and `seen`.
pub record Pairs (K A : Type 0) : Type 0 where
  pub first : K → Option A
  pub seen : K → Bool

-- What has been sent with a key, when `l` are the items of that key that have come so far.
abbrev pub released : {A : Type 0} → List A → List A
released [] = []
released (a ∷ []) = []
released (a ∷ b ∷ l) = a ∷ b ∷ l

module _ {K A : Type 0} ⦃e : MapKey K⦄ (key : A → K) where
  -- The maps after an item, and what is sent.
  unfoldable pub pair_step : Pairs K A → A → Pairs K A × List A
  pair_step s a = if s.seen (key a) then (s, a ∷ []) else elim (s.first (key a)) [
    | some prev ↦ (
      record { seen = update s.seen (key a) true; first = update s.first (key a) none },
      prev ∷ a ∷ [],
    )
    | none ↦ (record { seen = s.seen; first = update s.first (key a) (some a) }, [])
  ]

  -- The items with the key `k`.
  abbrev pub of_key : K → List A → List A
  of_key k = keep (λ a. key a == k)

  -- The maps at a key, when `l` are the items of that key that have come so far.
  abbrev pub Tracks : K → Pairs K A → List A → Type 0
  Tracks k s [] = (s.seen k ≡ false) × (s.first k ≡ none)
  Tracks k s (a ∷ []) = (s.seen k ≡ false) × (s.first k ≡ some a)
  Tracks k s (a ∷ b ∷ l) = s.seen k ≡ true

  -- What is kept back under a key has that key.
  abbrev pub IsKeyed : Pairs K A → Type 0
  IsKeyed s = (j : K) (p : A) → s.first j ≡ some p → (key p == j) ≡ true

  ==-trans_false : (x y k : K) → (x == y) ≡ true → (y == k) ≡ false → (x == k) ≡ false
  ==-trans_false x y k p q = ground (arith, e.same_iff x y, e.same_iff y k, e.same_iff x k)

  pub pair_step-IsKeyed : (s : Pairs K A) (a : A) → IsKeyed s → IsKeyed (pair_step s a).0
  unfolding pair_step
  pair_step-IsKeyed s a h j p q = ground (arith, h j p, e.same_iff (key a) j, e.same_iff j (key a))

  Tracks-cast :
      (k : K) (s t : Pairs K A) (l : List A)
      → t.seen k ≡ s.seen k
      → t.first k ≡ s.first k
      → Tracks k s l
      → Tracks k t l
  Tracks-cast k s t [] p q h = ground arith
  Tracks-cast k s t (a ∷ []) p q h = ground arith
  Tracks-cast k s t (a ∷ b ∷ l) p q h = p ∙ h

  step_other :
      (k : K) (s : Pairs K A) (a : A)
      → (key a == k) ≡ false
      → ((pair_step s a).0.seen k ≡ s.seen k) × ((pair_step s a).0.first k ≡ s.first k)
  unfolding pair_step
  step_other k s a h = ground (arith, e.same_iff k (key a), e.same_iff (key a) k)

  of_key-sent_other :
      (k : K) (s : Pairs K A) (a : A)
      → IsKeyed s
      → (key a == k) ≡ false
      → of_key k (pair_step s a).1 ≡ []
  unfolding pair_step
  of_key-sent_other k s a keyed h = elim (Option-cases (s.first (key a))) [
    | inl fresh ↦ ground arith
    | inr (prev, held) ↦
        ground (arith, keyed (key a) prev held, ==-trans_false (key prev) (key a) k)
  ]

  step_same :
      (k : K) (s : Pairs K A) (a : A) (l : List A)
      → (key a == k) ≡ true
      → of_key k l ≡ l
      → Tracks k s l
      → Tracks k (pair_step s a).0 (l ++ a ∷ [])
        × (released l ++ of_key k (pair_step s a).1 ≡ released (l ++ a ∷ []))
  unfolding pair_step
  step_same k s a [] h all t = ground (arith, e.same_iff k (key a), e.same_iff (key a) k)
  step_same k s a (b ∷ []) h all t = ground (arith, e.same_iff k (key a), e.same_iff (key a) k)
  step_same k s a (b ∷ c ∷ l) h all t = ground (arith, e.same_iff (key a) k)

  -- From maps that track the items `l` of a key: what a run sends of the key completes what has
  -- been released of it.
  of_key-consume_from :
      (k : K) (s : Pairs K A) (l xs : List A)
      → IsKeyed s
      → of_key k l ≡ l
      → Tracks k s l
      → released l ++ of_key k (consume pair_step s xs).1 ≡ released (l ++ of_key k xs)
  unfolding consume
  of_key-consume_from k s l [] keyed all t = rw (append-nil, append-nil)
  of_key-consume_from k s l (x ∷ xs) keyed all t =
      let keyed' = pair_step-IsKeyed s x keyed in
      let s' = (pair_step s x).0 in
      elim (Bool-cases (key x == k)) [
        | inl same ↦
            let (t', sent) = step_same k s x l same all t in
            let all' : of_key k (l ++ x ∷ []) ≡ l ++ x ∷ [] = rw (keep-append, all, same) in
            let ih = of_key-consume_from k s' (l ++ x ∷ []) xs keyed' all' t' in
            rw (keep-append, ← append_assoc, sent, ih, same, append_assoc)
        | inr other ↦
            let (seen, first) = step_other k s x other in
            let ih = of_key-consume_from k s' l xs keyed' all (Tracks-cast k s s' l seen first t) in
            rw (keep-append, of_key-sent_other k s x keyed other, other) ih
      ]

  abbrev pub no_pairs : Pairs K A
  no_pairs = record { first = λ _. none; seen = λ _. false }

  pub of_key-consume :
      (k : K) (xs : List A) → of_key k (consume pair_step no_pairs xs).1 ≡ released (of_key k xs)
  of_key-consume k xs = of_key-consume_from k no_pairs [] xs (λ j p h. cc) refl (refl, refl)

  released-count :
      (p : A → Bool) (l : List A)
      → count_if p (released l) ≡ (if leb 2 (length l) then count_if p l else 0)
  released-count p [] = refl
  released-count p (a ∷ []) = refl
  released-count p (a ∷ b ∷ l) = ground arith

  -- A test that only items of one key pass counts the same after a run, if the key came twice,
  -- and nothing otherwise.
  pub count_if-consume :
      (k : K) (p : A → Bool)
      → ((a : A) → p a ≡ true → (key a == k) ≡ true)
      → (xs : List A)
      → count_if p (consume pair_step no_pairs xs).1
        ≡ (if leb 2 (count_if (λ a. key a == k) xs) then count_if p xs else 0)
  count_if-consume k p sub xs =
      rw (← count_if-keep p (λ a. key a == k) sub (consume pair_step no_pairs xs).1) (
        rw (of_key-consume k xs, released-count, length-keep)
          (rw (count_if-keep p (λ a. key a == k) sub xs)))

  -- An item yields at most two sends.
  pub length-pair_step : (s : Pairs K A) (a : A) → length (pair_step s a).1 ≤ 2
  unfolding pair_step
  length-pair_step s a = ground arith

  step_zero :
      (p : A → Bool) (s : Pairs K A) (a : A)
      → ((j : K) (y : A) → s.first j ≡ some y → p y ≡ false)
      → p a ≡ false
      → (count_if p (pair_step s a).1 ≡ 0)
        × ((j : K) (y : A) → (pair_step s a).0.first j ≡ some y → p y ≡ false)
  unfolding pair_step
  step_zero p s a held h = elim (Option-cases (s.first (key a))) [
    | inl new ↦ (ground arith, λ j y e. ground (arith, held j y))
    | inr (prev, old) ↦ (ground (arith, held (key a) prev old), λ j y e. ground (arith, held j y))
  ]

  -- A run sends nothing that does not arrive and is not kept back.
  pub count_if-consume_zero :
      (p : A → Bool) (s : Pairs K A) (xs : List A)
      → ((j : K) (y : A) → s.first j ≡ some y → p y ≡ false)
      → count_if p xs ≡ 0
      → count_if p (consume pair_step s xs).1 ≡ 0
  unfolding consume
  count_if-consume_zero p s [] held h = refl
  count_if-consume_zero p s (x ∷ xs) held h =
      let absent : p x ≡ false = ground arith in
      let (none_sent, held') = step_zero p s x held absent in
      omega (
        arith,
        count_if-append p (pair_step s x).1 (consume pair_step (pair_step s x).0 xs).1,
        count_if-consume_zero p (pair_step s x).0 xs held' (ground arith),
      )
