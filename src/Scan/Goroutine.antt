-- ===== src/Scan/Goroutine.antt =====
-- The loop that the stages of the pipeline share (internal/scan): receive an item, act on it, send
-- what it yields, until the input channel is closed or the context is done. Each channel operation
-- is a `select` with `ctx.Done()`, so a run is given the number of operations that go through
-- before the context is found done.
use ditto.Prelude.{
  ℕ, zero, suc, ◌+◌, ◌-◌, ◌*◌, ◌≤◌, ◌≡◌, refl, inl, inr, List, [], ◌∷◌, ◌++◌, append_assoc, arith,
  if◌then◌else◌, ltb, length, take, drop, take-append-drop, Bool-cases,
}

module _ {ℓ} {S A B : Type ℓ} (step : S → A → S × List B) where
  -- The loop with `live` channel operations left: the state that it ends in, and what it sent.
  unfoldable pub drive : ℕ → S → List A → S × List B
  drive zero s xs = (s, [])
  drive (suc live) s [] = (s, [])
  drive (suc live) s (x ∷ xs) =
      let sent = (step s x).1 in
      let rest = drive (live - length sent) (step s x).0 xs in
      if ltb live (length sent) then ((step s x).0, take live sent) else (rest.0, sent ++ rest.1)

  -- The loop when the context is never done.
  unfoldable pub consume : S → List A → S × List B
  consume s [] = (s, [])
  consume s (x ∷ xs) = let rest = consume (step s x).0 xs in (rest.0, (step s x).1 ++ rest.1)

  -- The channel operations that the whole input takes.
  unfoldable pub operations : S → List A → ℕ
  operations s [] = 0
  operations s (x ∷ xs) = suc (length (step s x).1 + operations (step s x).0 xs)

  pub drive-eq-consume :
      (live : ℕ) (s : S) (xs : List A) → operations s xs ≤ live → drive live s xs ≡ consume s xs
  unfolding drive consume operations
  drive-eq-consume zero s [] h = refl
  drive-eq-consume zero s (x ∷ xs) h = absurd (omega arith)
  drive-eq-consume (suc live) s [] h = refl
  drive-eq-consume (suc live) s (x ∷ xs) h =
      let (s', sent) = step s x in ground (arith, drive-eq-consume (live - length sent) s' xs)

  -- What was sent before the context was done is a prefix of what would have been sent.
  pub drive-prefix :
      (live : ℕ) (s : S) (xs : List A)
      → (rest : List B) × ((drive live s xs).1 ++ rest ≡ (consume s xs).1)
  unfolding drive consume
  drive-prefix zero s xs = ((consume s xs).1, refl)
  drive-prefix (suc live) s [] = ([], refl)
  drive-prefix (suc live) s (x ∷ xs) =
      let sent = (step s x).1 in
      let next = (step s x).0 in
      let (rest, e) = drive-prefix (live - length sent) next xs in
      elim (Bool-cases (ltb live (length sent))) [
        | inl cut ↦
            (drop live sent ++ (consume next xs).1, rw (cut, ← append_assoc, take-append-drop))
        | inr whole ↦ (rest, rw (whole, append_assoc, e))
      ]

  -- Where every item yields at most two sends, three operations an item are enough.
  pub operations-le :
      ((s : S) (x : A) → length (step s x).1 ≤ 2)
      → (s : S) (xs : List A) → operations s xs ≤ 3 * length xs
  unfolding operations
  operations-le two s [] = omega arith
  operations-le two s (x ∷ xs) = omega (arith, two s x, operations-le two (step s x).0 xs)
