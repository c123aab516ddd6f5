-- ===== src/Scan/Writer/Recorded.antt =====
-- RunDBWriter (internal/scan/writer.go) from the results to the tables.
use ditto.Prelude.{
  ℕ, ◌+◌, ◌*◌, ◌%◌, ◌≤◌, ◌<◌, ◌≡◌, refl, List, [], ◌∷◌, Bool, true, false, String, arith,
  if◌then◌else◌, leb, keep, length, string_key, ap, ◌∙◌, sym, subst,
}
use mathlib.Core.List.{Permᴰ}
use ditto.Scan.Types.{HashedFile, word}
use ditto.Scan.Cache.{FileCache}
use ditto.Scan.Writer.Defs.{
  group_batch_size, Store, no_stats, WriteStats, GroupEntry, ok, TxFaults, Run,
}
use ditto.Scan.Writer.Collect.{
  Collected, collect, is_duplicate, total_files, persist_groups, run_db_writer, files_at, of_hash,
  groups-receive, receive, files_at-collect,
}
use ditto.Scan.Writer.Insert.{at_path}
use ditto.Scan.Writer.View.{view, listed_of, IsNumbered, is_free}
use ditto.Scan.Writer.All.{
  total, named, holds, brings, hollow, IsOrderly, AreFree, counted, write_all_lem,
}
use ditto.Scan.Writer.Batches.{write_batches-eq-write_all}
use ditto.Scan.Writer.Iteration.{
  add_files, total-perm, recorded-perm, recorded-files_at, brings-files_at, total-keep,
  total-keep-le, add_files-IsOrderly, files-add_files, length-add_files, total_files-perm,
  total_one,
}

groups-collect :
    (b now sc : ℕ) (refuses : ℕ → Bool) (i : ℕ) (c : Collected) (xs : List HashedFile)
    → (collect b now sc refuses i c xs).groups ≡ add_files xs c.groups
unfolding collect ditto.Scan.Writer.Collect.flush_cache
groups-collect b now sc refuses i c [] = refl
groups-collect b now sc refuses i c (x ∷ xs) =
    groups-collect b now sc refuses (i + 1) (receive b now sc refuses i c x) xs
    ∙ ap (add_files xs) (groups-receive b now sc refuses i c x)

counted_files_hashed :
    (es : List GroupEntry) (t : WriteStats) → (counted t es).files_hashed ≡ t.files_hashed
counted_files_hashed [] t = refl
counted_files_hashed (e ∷ es) t = counted_files_hashed es (counted t (e ∷ []))

counted_groups :
    (es : List GroupEntry) (t : WriteStats)
    → t.duplicate_groups < word
    → (counted t es).duplicate_groups ≡ (t.duplicate_groups + length es) % word
counted_groups [] t small = omega arith
counted_groups (e ∷ es) t small =
    let t' = counted t (e ∷ []) in
    let next : (counted t' es).duplicate_groups ≡ (t'.duplicate_groups + length es) % word =
      counted_groups es t' (omega arith) in
    omega (arith, next)

-- An order of iteration over a map, with each entry once.
abbrev pub IsIteration : (List GroupEntry → List GroupEntry) → Type 0
IsIteration order = (es : List GroupEntry) → Permᴰ (order es) es

-- The files of a duplicate digest may take their paths.
abbrev pub MayTake : Store → List HashedFile → Type 0
MayTake s xs =
    (h p : String) → 2 ≤ length (of_hash h xs) → 1 ≤ at_path p (of_hash h xs) → is_free s h p ≡ true

-- The outcome of a run in which nothing fails.
abbrev pub Recorded : Store → List HashedFile → Run → Type 0
Recorded s xs r =
    (r.result ≡ ok tt)
    × ((h : String)
        → view h r.store
          ≡ (if leb 2 (length (of_hash h xs)) then listed_of (of_hash h xs) else view h s))
    × (r.stats.files_hashed ≡ length xs % word)
    × (r.stats.duplicate_groups ≡ r.groups_written)
    × IsNumbered r.store

module _ (ext : String → String) (scan_id now : ℕ) (χ : TxFaults)
    (quiet : (i : ℕ) → (χ.begin i ≡ false) × (χ.commit i ≡ false))
    (order : List GroupEntry → List GroupEntry) (each : IsIteration order) where
  -- The duplicates among the entries of a map, in the order of the iteration.
  duplicates-IsOrderly :
      (es : List GroupEntry) → IsOrderly es → IsOrderly (keep is_duplicate (order es))
  duplicates-IsOrderly es (names, paths, solid) =
      let under : (w : GroupEntry → ℕ) → total w (keep is_duplicate (order es)) ≤ total w es =
        λ w. omega (arith, total-keep-le w is_duplicate (order es), total-perm w (each es)) in
      (
        λ h. omega (arith, names h, under (named h)),
        λ p. omega (arith, paths p, under (holds p)),
        omega (arith, solid, under hollow),
      )

  duplicates-AreFree :
      (s : Store) (es : List GroupEntry) (xs : List HashedFile)
      → ((h : String) → files_at h es ≡ of_hash h xs)
      → IsOrderly es
      → MayTake s xs
      → AreFree s (keep is_duplicate (order es))
  duplicates-AreFree s es xs files (names, paths, solid) may h p some_file =
      let brought = brings-files_at h p es (names h) in
      let kept = total-keep (brings h p) is_duplicate (order es) in
      let any = total-perm (λ e. if is_duplicate e then brings h p e else 0) (each es) in
      let same : total (λ e. if is_duplicate e then brings h p e else 0) es
          ≡ (if leb 2 (length (of_hash h xs)) then at_path p (of_hash h xs) else 0) =
        brought ∙ ap (λ l. if leb 2 (length l) then at_path p l else 0) (files h) in
      may h p (ground arith) (ground arith)

  persist_groups_lem :
      (live : ℕ) (s : Store) (es : List GroupEntry) (xs : List HashedFile)
      → ((h : String) → files_at h es ≡ of_hash h xs)
      → IsOrderly es
      → total_files es ≡ length xs
      → length es ≤ group_batch_size * live
      → IsNumbered s
      → MayTake s xs
      → Recorded s xs (persist_groups ext scan_id now χ live s (order es))
  unfolding persist_groups
  persist_groups_lem live s es xs files orderly count alive numbered may =
      let duplicates = keep is_duplicate (order es) in
      let t : WriteStats = record no_stats { files_hashed = total_files (order es) % word } in
      let (s', done, numbered', views) =
        write_all_lem ext scan_id now s t duplicates numbered (duplicates-IsOrderly es orderly)
          (duplicates-AreFree s es xs files orderly may) in
      let fewer : length duplicates ≤ length es = omega (
        arith,
        total_one duplicates,
        total_one es,
        total-keep-le (λ e. 1) is_duplicate (order es),
        total-perm (λ e. 1) (each es),
      ) in
      let start : Run = record { store = s; stats = t; groups_written = 0; result = ok tt } in
      let run =
        write_batches-eq-write_all ext scan_id now χ quiet (length duplicates) live 0 start
          duplicates s' (counted t duplicates) done (omega arith) (omega (arith, fewer))
          (omega arith) in
      rw run (
        refl,
        λ h.
            views h
            ∙ recorded-perm h is_duplicate (each es)
                (omega (arith, orderly.0 h, total-perm (named h) (each es))) (view h s)
            ∙ recorded-files_at h es (view h s) (orderly.0 h)
            ∙ ap (λ l. if leb 2 (length l) then listed_of l else view h s) (files h),
        counted_files_hashed duplicates t ∙ ap (λ n. n % word) (total_files-perm (each es) ∙ count),
        counted_groups duplicates t (omega arith),
        numbered',
      )

  -- If the batch size is positive, no transaction fails and the context is not done, the iteration has each
  -- entry of the map once, no path comes twice, the ids of the tables are in order, and no path of a
  -- digest with two results or more is in a row of another digest's group, then RunDBWriter returns
  -- without an error, whatever flushes of the cache are refused: each digest with two results or more is
  -- recorded with their paths in the order of arrival, their count and their reclaimable bytes, every
  -- other digest as it was; FilesHashed is the number of all results, those of digests with a single one
  -- included, the groups written are those counted, and the ids are in order again.
  pub run_db_writer_lem :
      (b live : ℕ) (refuses : ℕ → Bool) (cache : FileCache) (s : Store) (xs : List HashedFile)
      → 1 ≤ b
      → IsNumbered s
      → ((p : String) → at_path p xs ≤ 1)
      → MayTake s xs
      → length xs ≤ group_batch_size * live
      → Recorded s xs (run_db_writer ext scan_id now χ order b refuses false live cache s xs).1
  unfolding run_db_writer
  run_db_writer_lem b live refuses cache s xs positive numbered once may alive =
      let c : Collected = record { groups = []; cache_buf = []; cache = cache } in
      let es = (collect b now scan_id refuses 0 c xs).groups in
      let gathered : es ≡ add_files xs [] = groups-collect b now scan_id refuses 0 c xs in
      persist_groups_lem live s es xs (files_at-collect b now scan_id refuses 0 c xs)
        (subst IsOrderly (sym gathered)
          (add_files-IsOrderly xs [] (λ h. omega arith) (λ p. omega (arith, once p)) refl))
        (ap total_files gathered ∙ files-add_files xs [] ∙ omega arith)
        (omega (arith, ap length gathered, length-add_files xs [])) numbered may
