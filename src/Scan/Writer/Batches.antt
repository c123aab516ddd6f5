-- ===== src/Scan/Writer/Batches.antt =====
-- The loop of persistGroups (internal/scan/writer.go): transactions of groupBatchSize groups, whatever
-- fails, and when none does.
use ditto.Prelude.{
  ℕ, zero, suc, ◌+◌, ◌*◌, ◌%◌, ◌<◌, ◌≤◌, ◌≡◌, refl, inl, inr, List, [], ◌∷◌, ◌++◌, false, String,
  arith, length, length-append, take, drop, take-append-drop, take_add, length-drop, ap, ◌∙◌, sym,
}
use ditto.Scan.Types.{add64, word}
use ditto.Scan.Writer.Defs.{
  group_batch_size, Store, WriteStats, GroupEntry, WriteError, ok, err, ◌>>=◌, TxFaults, Run,
  write_group_in_tx, write_all, write_group_batch, write_batches,
}
use ditto.Scan.Writer.Group.{Result-cases}

length-split : (n : ℕ) (xs : List GroupEntry) → length (take n xs) + length (drop n xs) ≡ length xs
length-split n xs = sym (length-append (take n xs) (drop n xs)) ∙ ap length (take-append-drop n xs)

add64_twice : (a b c : ℕ) → (add64 a b + c) % word ≡ (a + (b + c)) % word
add64_twice a b c = omega arith

group_batch_size-suc : (n : ℕ) → group_batch_size * suc n ≡ group_batch_size + group_batch_size * n
group_batch_size-suc n = omega arith

-- A run after a batch that is written.
abbrev advance : Run → Store → WriteStats → List GroupEntry → Run
advance r s t batch = record r {
  store = s;
  stats = t;
  groups_written = add64 r.groups_written (length batch);
}

module _ (ext : String → String) (scan_id now : ℕ) where
  -- The groups of one list after those of another.
  write_all-append :
      (st : Store × WriteStats) (xs ys : List GroupEntry)
      → write_all ext scan_id now st (xs ++ ys)
        ≡ (write_all ext scan_id now st xs >>= λ st'. write_all ext scan_id now st' ys)
  unfolding write_all
  write_all-append st [] ys = refl
  write_all-append st (x ∷ xs) ys = elim (Result-cases (write_group_in_tx ext scan_id now st x)) [
    | inl (st', done) ↦ rw done (write_all-append st' xs ys)
    | inr (x', failed) ↦ rw failed refl
  ]

  module _ (χ : TxFaults) where
    -- The outcome of a batch: its groups are written, or none.
    write_group_batch-ok :
        (i : ℕ) (s : Store) (t : WriteStats) (batch : List GroupEntry) (st : Store × WriteStats)
        → write_group_batch ext scan_id now χ i s t batch ≡ ok st
        → write_all ext scan_id now (s, t) batch ≡ ok st
    unfolding write_group_batch
    write_group_batch-ok i s t batch st h =
        elim (Result-cases (write_all ext scan_id now (s, t) batch)) [
          | inl (st', done) ↦ ground arith
          | inr (x, failed) ↦ absurd (ground arith)
        ]

    write_batches-next :
        (fuel live i : ℕ) (r : Run) (e : GroupEntry) (es : List GroupEntry) (s : Store)
        (t : WriteStats)
        → write_group_batch ext scan_id now χ i r.store r.stats (take group_batch_size (e ∷ es))
          ≡ ok (s, t)
        → write_batches ext scan_id now χ (suc fuel) (suc live) i r (e ∷ es)
          ≡ write_batches ext scan_id now χ fuel live
              (i + 1)
              (advance r s t (take group_batch_size (e ∷ es)))
              (drop group_batch_size (e ∷ es))
    unfolding write_batches
    write_batches-next fuel live i r e es s t done = ground arith

    write_batches-failed :
        (fuel live i : ℕ) (r : Run) (e : GroupEntry) (es : List GroupEntry) (x : WriteError)
        → write_group_batch ext scan_id now χ i r.store r.stats (take group_batch_size (e ∷ es))
          ≡ err x
        → write_batches ext scan_id now χ (suc fuel) (suc live) i r (e ∷ es)
          ≡ record r { result = err x }
    unfolding write_batches
    write_batches-failed fuel live i r e es x failed = ground arith

    -- Whatever transaction fails, and whenever the context is done, the tables after persistGroups'
    -- loop are those after the groups of a whole number of batches: no group of a batch is recorded
    -- without the others.
    pub write_batches-prefix :
        (fuel live i : ℕ) (r : Run) (es : List GroupEntry)
        → (n : ℕ) × (t : WriteStats) × (write_all ext scan_id now
              (r.store, r.stats)
              (take (group_batch_size * n) es)
            ≡ ok ((write_batches ext scan_id now χ fuel live i r es).store, t))
    unfolding write_batches write_all
    write_batches-prefix zero live i r es = (0, r.stats, refl)
    write_batches-prefix (suc fuel) live i r [] = (0, r.stats, refl)
    write_batches-prefix (suc fuel) zero i r (e ∷ es) = (0, r.stats, refl)
    write_batches-prefix (suc fuel) (suc live) i r (e ∷ es) =
        let batch = take group_batch_size (e ∷ es) in
        elim (Result-cases (write_group_batch ext scan_id now χ i r.store r.stats batch)) [
          | inr (x, failed) ↦ (
            0,
            r.stats,
            ap (λ (y : Run). ok (y.store, r.stats))
                (sym (write_batches-failed fuel live i r e es x failed)),
          )
          | inl ((s, t), done) ↦
              let r' = advance r s t batch in
              let (n, t', rest) =
                write_batches-prefix fuel live (i + 1) r' (drop group_batch_size (e ∷ es)) in
              let cut : take (group_batch_size * suc n) (e ∷ es)
                  ≡ batch ++ take (group_batch_size * n) (drop group_batch_size (e ∷ es)) =
                ap (λ k. take k (e ∷ es)) (group_batch_size-suc n)
                ∙ take_add group_batch_size (group_batch_size * n) (e ∷ es) in
              (
                suc n,
                t',
                ap (write_all ext scan_id now (r.store, r.stats)) cut
                    ∙ write_all-append (r.store, r.stats) batch _
                    ∙ rw (write_group_batch-ok i r.store r.stats batch (s, t) done) rest
                    ∙ ap (λ (y : Run). ok (y.store, t'))
                        (sym (write_batches-next fuel live i r e es s t done)),
              )
        ]

    -- A transaction that neither begins nor commits in vain does what its groups do.
    write_group_batch-quiet :
        (i : ℕ) (s : Store) (t : WriteStats) (batch : List GroupEntry)
        → χ.begin i ≡ false
        → χ.commit i ≡ false
        → write_group_batch ext scan_id now χ i s t batch ≡ write_all ext scan_id now (s, t) batch
    unfolding write_group_batch
    write_group_batch-quiet i s t batch begins commits =
        elim (Result-cases (write_all ext scan_id now (s, t) batch)) [
          | inl (st, done) ↦ ground arith
          | inr (x, failed) ↦ ground arith
        ]

    -- If no transaction fails, all groups can be written, and the context is not done before the last
    -- batch, then with fuel for each group the batches end with the tables and the statistics that
    -- writing all groups at once gives, and every group is counted as written.
    pub write_batches-eq-write_all :
        ((i : ℕ) → (χ.begin i ≡ false) × (χ.commit i ≡ false))
        → (fuel live i : ℕ) (r : Run) (es : List GroupEntry) (s : Store) (t : WriteStats)
        → write_all ext scan_id now (r.store, r.stats) es ≡ ok (s, t)
        → length es ≤ fuel
        → length es ≤ group_batch_size * live
        → r.groups_written < word
        → write_batches ext scan_id now χ fuel live i r es ≡ record r {
          store = s;
          stats = t;
          groups_written = (r.groups_written + length es) % word;
        }
    unfolding write_batches write_all
    write_batches-eq-write_all quiet zero live i r [] s t done enough alive small = ground arith
    write_batches-eq-write_all quiet (suc fuel) live i r [] s t done enough alive small =
        ground arith
    write_batches-eq-write_all quiet zero live i r (e ∷ es) s t done enough alive small =
        absurd (omega arith)
    write_batches-eq-write_all quiet (suc fuel) zero i r (e ∷ es) s t done enough alive small =
        absurd (omega arith)
    write_batches-eq-write_all quiet (suc fuel) (suc live) i r (e ∷ es) s t done enough alive
          small =
        let batch = take group_batch_size (e ∷ es) in
        let others = drop group_batch_size (e ∷ es) in
        let in_two =
          ap (write_all ext scan_id now (r.store, r.stats))
            (take-append-drop group_batch_size (e ∷ es)) in
        let append = write_all-append (r.store, r.stats) batch others in
        let sum = length-split group_batch_size (e ∷ es) in
        elim (Result-cases (write_all ext scan_id now (r.store, r.stats) batch)) [
          | inr (x, failed) ↦ absurd (ground (arith, in_two, append))
          | inl ((s', t'), first) ↦
              let next : write_all ext scan_id now (s', t') others ≡ ok (s, t) =
                ap (λ x. x >>= λ st'. write_all ext scan_id now st' others) (sym first)
                ∙ sym append
                ∙ in_two
                ∙ done in
              write_batches-next fuel live i r e es s' t'
                (write_group_batch-quiet i r.store r.stats batch (quiet i).0 (quiet i).1 ∙ first)
              ∙ write_batches-eq-write_all quiet fuel live (i + 1) (advance r s' t' batch) others s
                  t next (omega (arith, sum)) (omega (arith, length-drop group_batch_size (e ∷ es)))
                  (omega arith)
              ∙ ap (λ n. record r { store = s; stats = t; groups_written = n })
                  (add64_twice r.groups_written (length batch) (length others)
                    ∙ ap (λ n. (r.groups_written + n) % word) sum)
        ]
