-- ===== src/Scan/Pipeline/Once.antt =====
-- The pipeline (internal/scan/scan.go, runPipeline) delivers no file twice to the DB writer.
use ditto.Prelude.{
  ℕ, ◌*◌, ◌+◌, ◌≤◌, ◌≡◌, List, [], ◌∷◌, Bool, true, false, not, ◌&&◌, String, arith, nat_beq,
  length, count_if, count_if-append, count_if_mono, ◌==◌, string_key, nat_key, ap, inl, inr,
  Bool-cases, ◌∙◌, keep,
}
use ditto.Disk.{Disk}
use ditto.Scan.Types.{FileInfo, HashedFile, new_progress}
use ditto.Scan.Accumulator.{
  run_size_accumulator, accumulator, size_of, is_nonempty, run-eq-consume as accumulated,
  consume-accumulate,
}
use ditto.Scan.Grouper.{
  hash_of, run-eq-consume as grouped, count_if-grouped_zero, run_partial_hash_grouper,
}
use ditto.Scan.Pairing.Once.{consume_once}
use ditto.Scan.Cache.{FileCache, Turn, hits_of, misses_of, run_cache_check_lem, route}
use ditto.Scan.Hasher.{
  ReadFaults, HashResult, hashed, open_error, read_error, hash_partial, hash_full,
  run_partial_hashers, run_full_hashers, run_size_router, small, large,
}
use ditto.Scan.PriorityQueue.{run_size_priority_queue, count_if-run_size_priority_queue}
use ditto.Scan.Pipeline.Wiring.{
  Schedule, staffed, IsStaffed, staffed_lem, fresh, in_lane, to_candidates, to_routed_lem,
  to_grouped, to_hashed, run_pipeline,
}
use ditto.Scan.Pipeline.Stages.{
  passes, is_small, count_if-run_partial_hashers, count_if-run_full_hashers,
  count_if-run_size_router,
}

abbrev pub is_at : String → FileInfo → Bool
is_at p fi = fi.path == p

abbrev pub hashed_at : String → HashedFile → Bool
hashed_at p hf = hf.path == p

passes-le :
    (p : String) (fi : FileInfo) (r : HashResult)
    → passes (hashed_at p) fi r ≡ true
    → is_at p fi ≡ true
passes-le p fi (hashed h n) e = e
passes-le p fi open_error e = absurd (ground arith)
passes-le p fi read_error e = absurd (ground arith)

hits-misses :
    (p : String) (cache : FileCache) (xs : List FileInfo)
    → count_if (hashed_at p) (hits_of cache xs) + count_if (is_at p) (misses_of cache xs)
      ≡ count_if (is_at p) xs
unfolding route
hits-misses p cache [] = omega arith
hits-misses p cache (x ∷ xs) = ground (arith, hits-misses p cache xs)

in_two_lanes :
    (p : String) (xs : List HashedFile)
    → count_if (λ x. hashed_at p x && is_small x) xs
        + count_if (λ x. hashed_at p x && not (is_small x)) xs
      ≡ count_if (hashed_at p) xs
in_two_lanes p [] = omega arith
in_two_lanes p (x ∷ xs) = ground (arith, in_two_lanes p xs)

count_if-keep-le :
    (p q : FileInfo → Bool) (xs : List FileInfo) → count_if p (keep q xs) ≤ count_if p xs
count_if-keep-le p q [] = omega arith
count_if-keep-le p q (x ∷ xs) = ground (arith, count_if-keep-le p q xs)

module _ (sha : List ℕ → String) (φ : ReadFaults) (d : Disk) (took : String → ℕ) (cache : FileCache)
    (turns : ℕ → Turn) (σ : Schedule) (staff : IsStaffed σ.cfg) (p : String) where
  to_candidates_once :
      (walked : List FileInfo)
      → count_if (is_at p) walked ≤ 1
      → count_if (is_at p) (to_candidates sha φ d took cache turns σ walked) ≤ 1
  unfolding to_candidates
  to_candidates_once walked once =
      let run = accumulated (3 * length walked) new_progress walked (omega arith) in
      let paired = consume-accumulate (accumulator new_progress) walked in
      let sent =
        consume_once size_of (is_at p) (keep is_nonempty walked)
          (omega (arith, count_if-keep-le (is_at p) is_nonempty walked)) in
      let same : count_if (is_at p) (run_size_accumulator (3 * length walked) new_progress walked).1
          ≤ 1 =
        rw (run, paired) sent in
      omega (
        arith,
        same,
        σ.candidates.same (is_at p)
            (run_size_accumulator (3 * length walked) new_progress walked).1,
      )

  to_grouped_once :
      (misses : List FileInfo)
      → count_if (is_at p) misses ≤ 1
      → count_if (hashed_at p) (to_grouped sha φ d took cache turns σ misses)
        ≤ count_if (is_at p) misses
  unfolding to_grouped
  to_grouped_once misses once =
      let waiting = σ.misses.mix misses in
      let hashed = (run_partial_hashers sha φ d took (3 * length waiting) fresh waiting).1 in
      let partial = σ.partial.mix (staffed σ.cfg.partial_hashers hashed) in
      let arrived : count_if (hashed_at p) partial
          ≡ count_if (λ x. passes (hashed_at p) x (hash_partial sha φ d x.path)) misses =
        σ.partial.same (hashed_at p) _
        ∙ ap (count_if (hashed_at p)) (staffed_lem σ.cfg.partial_hashers hashed staff.1)
        ∙ count_if-run_partial_hashers sha φ d took (hashed_at p) fresh waiting
        ∙ σ.misses.same _ misses in
      let fewer =
        count_if_mono (λ x. passes (hashed_at p) x (hash_partial sha φ d x.path)) (is_at p)
          (λ x. passes-le p x (hash_partial sha φ d x.path)) misses in
      let paired : count_if (hashed_at p) (run_partial_hash_grouper (3 * length partial) partial)
          ≤ 1 =
        rw (grouped (3 * length partial) partial (omega arith))
          (consume_once hash_of (hashed_at p) partial (omega (arith, arrived, fewer))) in
      elim (Bool-cases (nat_beq (count_if (is_at p) misses) 0)) [
        | inl absent ↦
            let empty : count_if (hashed_at p) partial ≡ 0 = ground (arith, arrived, fewer) in
            omega (
              arith,
              count_if-grouped_zero (3 * length partial) partial (hashed_at p) (omega arith) empty,
            )
        | inr present ↦ ground (arith, paired)
      ]

  to_hashed-le :
      (grouped : List HashedFile)
      → count_if (hashed_at p) (to_hashed sha φ d took cache turns σ grouped)
        ≤ count_if (hashed_at p) grouped
  unfolding to_hashed
  to_hashed-le grouped =
      let lanes = run_size_router (3 * length grouped) grouped in
      let waiting = in_lane large lanes in
      let queued = run_size_priority_queue σ.heap (2 * length waiting + 1) σ.accepts waiting in
      let hashed = (run_full_hashers sha φ d took (3 * length queued) fresh queued).1 in
      let fewer =
        count_if_mono (λ x. passes (hashed_at p) x.file_info (hash_full sha φ d x.path))
          (hashed_at p) (λ (x : HashedFile). passes-le p x.file_info (hash_full sha φ d x.path))
          queued in
      let routed = count_if-run_size_router (hashed_at p) grouped in
      rw (staffed_lem σ.cfg.full_hashers hashed staff.2) (
        omega (
          arith,
          count_if-append (hashed_at p) hashed (in_lane small lanes),
          count_if-run_full_hashers sha φ d took (hashed_at p) fresh queued,
          fewer,
          count_if-run_size_priority_queue σ.heap σ.accepts waiting (hashed_at p),
          routed.0,
          routed.1,
          in_two_lanes p grouped,
        ))

  pub run_pipeline_once :
      (walked : List FileInfo)
      → ((j : ℕ) → (turns j).fails ≡ false)
      → count_if (is_at p) walked ≤ 1
      → count_if (hashed_at p) (run_pipeline sha φ d took cache turns σ walked) ≤ 1
  unfolding run_pipeline
  run_pipeline_once walked ok once =
      let cands = to_candidates sha φ d took cache turns σ walked in
      let (hits, misses) = run_cache_check_lem cache turns new_progress cands ok in
      let kept = to_grouped sha φ d took cache turns σ (misses_of cache cands) in
      let few = to_candidates_once walked once in
      let split = hits-misses p cache cands in
      let merged : count_if (hashed_at p) (run_pipeline sha φ d took cache turns σ walked)
          ≡ count_if (hashed_at p) (hits_of cache cands)
            + count_if (hashed_at p) (to_hashed sha φ d took cache turns σ kept) =
        σ.merged.same (hashed_at p) _
        ∙ rw (to_routed_lem sha φ d took cache turns σ walked staff.0, hits, misses)
            (count_if-append (hashed_at p) (hits_of cache cands)
              (to_hashed sha φ d took cache turns σ kept)) in
      omega (
        arith,
        merged,
        few,
        split,
        to_grouped_once (misses_of cache cands) (omega (arith, few, split)),
        to_hashed-le kept,
      )
