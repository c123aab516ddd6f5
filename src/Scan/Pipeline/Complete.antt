-- ===== src/Scan/Pipeline/Complete.antt =====
-- What the pipeline as a whole delivers to the DB writer (internal/scan/scan.go, runPipeline).
use ditto.Prelude.{
  ℕ, ◌*◌, ◌+◌, ◌≤◌, ◌≡◌, ◌≢◌, refl, List, [], ◌∷◌, ◌++◌, none, some, Bool, true, false, not, ◌&&◌,
  String, arith, if◌then◌else◌, leb, nat_beq, nat_beq_iff, length, count_if, count_if-append,
  count_if_mono, count_if_none, ◌==◌, string_key, ap, ◌∙◌, Bool-cases, inl, inr,
}
use text.Mathlib.TextEquality.{eq_iff}
use ditto.Disk.{Disk}
use ditto.Scan.Types.{FileInfo, HashedFile, new_progress}
use ditto.Scan.Accumulator.{run_size_accumulator, count_if-candidates}
use ditto.Scan.Grouper.{count_if-grouped_zero}
use ditto.Scan.Cache.{FileCache, Turn, hits_of, misses_of, run_cache_check, run_cache_check_lem}
use ditto.Scan.Hasher.{
  ReadFaults, HashResult, hashed, open_error, read_error, hash_partial, hash_full,
  hash_partial-eq-hash_full, prefix, partial_hash_bytes, run_partial_hashers, run_full_hashers,
  run_size_router, small, large,
}
use ditto.Scan.PriorityQueue.{run_size_priority_queue}
use ditto.Scan.Pipeline.Wiring.{
  Schedule, staffed, IsStaffed, staffed_lem, fresh, in_lane, to_candidates, to_routed_lem,
  to_grouped, to_hashed, run_pipeline,
}
use ditto.Scan.Pipeline.Stages.{
  passes, is_small, count_if-run_partial_hashers, count_if-run_full_hashers,
  count_if-run_size_router,
}
use ditto.Scan.Pipeline.Duplicates.{
  is_copy, arrives, has_prefix, count_if-run_pipeline, hash_partial-copy,
}

-- A cache without an entry.
abbrev pub empty_cache : FileCache
empty_cache path = none

hits_of-empty_cache :
    (xs : List FileInfo) → (hits_of empty_cache xs ≡ []) × (misses_of empty_cache xs ≡ xs)
unfolding ditto.Scan.Cache.route
hits_of-empty_cache [] = (refl, refl)
hits_of-empty_cache (x ∷ xs) = let h = hits_of-empty_cache xs in (h.0, ap (◌∷◌ x) h.1)

module _ (sha : List ℕ → String) (φ : ReadFaults) (d : Disk) (took : String → ℕ) (turns : ℕ → Turn)
    (σ : Schedule) where
  count_if-to_candidates :
      (cache : FileCache) (c : List ℕ) (walked : List FileInfo)
      → length c ≢ 0
      → 2 ≤ count_if (is_copy d c) walked
      → count_if (is_copy d c) (to_candidates sha φ d took cache turns σ walked)
        ≡ count_if (is_copy d c) walked
  unfolding to_candidates
  count_if-to_candidates cache c walked pos two =
      let P = is_copy d c in
      let all =
        σ.candidates.same P (run_size_accumulator (3 * length walked) new_progress walked).1 in
      let sub : (fi : FileInfo) → P fi ≡ true → fi.size ≡ length c =
        λ fi e. ground (arith, nat_beq_iff fi.size (length c)) in
      let more = count_if_mono P (λ fi. nat_beq fi.size (length c)) (λ fi e. ground arith) walked in
      let law =
        count_if-candidates (3 * length walked) new_progress walked (length c) P (omega arith) pos
          sub in
      ground arith

  copy-has_prefix :
      ((p : String) → (φ.open_file p ≡ false) × (φ.read p ≡ false))
      → (c : List ℕ) (fi : FileInfo) → is_copy d c fi ≡ true
      → has_prefix sha d c φ fi ≡ true
  copy-has_prefix readable c fi h =
      rw (hash_partial-copy sha φ d readable c fi h)
        (ground (arith, eq_iff (sha (prefix c)) (sha (prefix c))))

  -- In a scan that is not cancelled, with a worker for every stage, on an empty cache, with readable
  -- files and working queries:
  -- if at least two of the walked files are copies of a content that is not empty, every one of
  -- them reaches the DB writer, with the hash of that content, whatever the schedule.
  pub cold_complete :
      IsStaffed σ.cfg
      → ((p : String) → (φ.open_file p ≡ false) × (φ.read p ≡ false))
      → ((j : ℕ) → (turns j).fails ≡ false)
      → (c : List ℕ) (walked : List FileInfo) → length c ≢ 0
      → 2 ≤ count_if (is_copy d c) walked
      → count_if (arrives sha d c) (run_pipeline sha φ d took empty_cache turns σ walked)
        ≡ count_if (is_copy d c) walked
  cold_complete staff readable ok c walked pos two =
      let cands = to_candidates sha φ d took empty_cache turns σ walked in
      let (no_hits, all_misses) = hits_of-empty_cache cands in
      let law : count_if (arrives sha d c) (run_pipeline sha φ d took empty_cache turns σ walked)
          ≡ (if leb 2 (count_if (has_prefix sha d c φ) cands)
              then count_if (is_copy d c) cands
              else 0) =
        count_if-run_pipeline sha φ d readable c took empty_cache turns σ staff walked ok
        ∙ rw (no_hits, all_misses) (omega arith) in
      let same = count_if-to_candidates empty_cache c walked pos two in
      let more =
        count_if_mono (is_copy d c) (has_prefix sha d c φ) (copy-has_prefix readable c) cands in
      ground arith

  -- In a scan that is not cancelled, with a worker for every stage, readable files and working
  -- queries: where at most one of
  -- the candidates that miss the cache has the partial hash of a content, no copy of the content
  -- reaches the DB writer but as a cache hit, whatever the cache holds of the other copies.
  pub lone_miss-dropped :
      IsStaffed σ.cfg
      → ((p : String) → (φ.open_file p ≡ false) × (φ.read p ≡ false))
      → ((j : ℕ) → (turns j).fails ≡ false)
      → (cache : FileCache) (c : List ℕ) (walked : List FileInfo)
      → count_if
          (has_prefix sha d c φ)
          (misses_of cache (to_candidates sha φ d took cache turns σ walked))
        ≤ 1
      → count_if (arrives sha d c) (run_pipeline sha φ d took cache turns σ walked)
        ≡ count_if
            (arrives sha d c)
            (hits_of cache (to_candidates sha φ d took cache turns σ walked))
  lone_miss-dropped staff readable ok cache c walked lone =
      let law = count_if-run_pipeline sha φ d readable c took cache turns σ staff walked ok in
      ground arith

-- The file has the size it was walked with, and another hash than its content's.
abbrev pub true_size : Disk → FileInfo → Bool
true_size d fi = elim (d fi.path) [ none ↦ false | some f ↦ nat_beq fi.size (length f.content) ]

abbrev pub is_wrong : (List ℕ → String) → ReadFaults → Disk → HashedFile → Bool
is_wrong sha φ d hf =
    true_size d hf.file_info
    && not (passes (λ x. x.hash == hf.hash) hf.file_info (hash_full sha φ d hf.path))

module _ (sha : List ℕ → String) (φ : ReadFaults) (d : Disk) where
  full-not_wrong :
      (fi : FileInfo) (r : HashResult)
      → hash_full sha φ d fi.path ≡ r
      → passes (is_wrong sha φ d) fi r ≡ false
  full-not_wrong fi (hashed h n) e = rw e (ground (arith, eq_iff h h))
  full-not_wrong fi open_error e = refl
  full-not_wrong fi read_error e = refl

  weaker :
      (fi : FileInfo) (r : HashResult)
      → passes (is_wrong sha φ d) fi r ≡ false
      → passes (λ x. is_wrong sha φ d x && is_small x) fi r ≡ false
  weaker fi (hashed h n) e = ground arith
  weaker fi open_error e = refl
  weaker fi read_error e = refl

  not_small :
      (fi : FileInfo) (r : HashResult)
      → (true_size d fi && leb fi.size partial_hash_bytes) ≡ false
      → passes (λ x. is_wrong sha φ d x && is_small x) fi r ≡ false
  not_small fi (hashed h n) e = ground arith
  not_small fi open_error e = refl
  not_small fi read_error e = refl

  partial-not_wrong :
      (fi : FileInfo)
      → passes (λ x. is_wrong sha φ d x && is_small x) fi (hash_partial sha φ d fi.path) ≡ false
  partial-not_wrong fi = elim (Bool-cases (true_size d fi && leb fi.size partial_hash_bytes)) [
    | inl h ↦
        let same =
          hash_partial-eq-hash_full sha φ d fi.path
            (λ f at. ground (arith, nat_beq_iff fi.size (length f.content))) in
        rw same (weaker fi (hash_full sha φ d fi.path) (full-not_wrong fi _ refl))
    | inr h ↦ not_small fi (hash_partial sha φ d fi.path) h
  ]

  module _ (took : String → ℕ) (cache : FileCache) (turns : ℕ → Turn) (σ : Schedule)
      (staff : IsStaffed σ.cfg) where
    to_grouped-not_wrong :
        (misses : List FileInfo)
        → count_if
            (λ x. is_wrong sha φ d x && is_small x)
            (to_grouped sha φ d took cache turns σ misses)
          ≡ 0
    unfolding to_grouped
    to_grouped-not_wrong misses =
        let W : HashedFile → Bool = λ x. is_wrong sha φ d x && is_small x in
        let waiting = σ.misses.mix misses in
        let hashed = (run_partial_hashers sha φ d took (3 * length waiting) fresh waiting).1 in
        let hashes = staffed σ.cfg.partial_hashers hashed in
        let none_wrong = count_if_none _ partial-not_wrong waiting in
        count_if-grouped_zero (3 * length (σ.partial.mix hashes)) _ W (omega arith) (
          σ.partial.same W hashes
          ∙ ap (count_if W) (staffed_lem σ.cfg.partial_hashers hashed staff.1)
          ∙ count_if-run_partial_hashers sha φ d took W fresh waiting
          ∙ none_wrong)

    -- In a scan that is not cancelled, with a worker for every stage and working queries of the cache,
    -- whatever files cannot be opened or read: a file that has the size it was walked with reaches the DB writer with another hash than its content's only as a
    -- cache hit.
    pub wrong-cached :
        (walked : List FileInfo)
        → ((j : ℕ) → (turns j).fails ≡ false)
        → count_if (is_wrong sha φ d) (run_pipeline sha φ d took cache turns σ walked)
          ≡ count_if
              (is_wrong sha φ d)
              (hits_of cache (to_candidates sha φ d took cache turns σ walked))
    unfolding run_pipeline to_hashed
    wrong-cached walked ok =
        let W = is_wrong sha φ d in
        let cands = to_candidates sha φ d took cache turns σ walked in
        let (hits, misses) = run_cache_check_lem cache turns new_progress cands ok in
        let kept = to_grouped sha φ d took cache turns σ (misses_of cache cands) in
        let lanes = run_size_router (3 * length kept) kept in
        let waiting = in_lane large lanes in
        let queued = run_size_priority_queue σ.heap (2 * length waiting + 1) σ.accepts waiting in
        let hashed = (run_full_hashers sha φ d took (3 * length queued) fresh queued).1 in
        let full = staffed σ.cfg.full_hashers hashed in
        let in_full =
          ap (count_if W) (staffed_lem σ.cfg.full_hashers hashed staff.2)
          ∙ count_if-run_full_hashers sha φ d took W fresh queued
          ∙ count_if_none _ (λ x. full-not_wrong x.file_info _ refl) queued in
        let in_small =
          (count_if-run_size_router W kept).0 ∙ to_grouped-not_wrong (misses_of cache cands) in
        σ.merged.same W _
        ∙ rw (to_routed_lem sha φ d took cache turns σ walked staff.0, hits, misses)
            (omega (
              arith,
              in_full,
              in_small,
              count_if-append W (hits_of cache cands) (full ++ in_lane small lanes),
              count_if-append W full (in_lane small lanes),
            ))
