-- ===== src/Scan/Pipeline/Duplicates.antt =====
-- Which copies of a content reach the DB writer (internal/scan/scan.go, runPipeline), in a scan that
-- is not cancelled and in which every file can be read.
use ditto.Prelude.{
  ℕ, ◌+◌, ◌*◌, ◌≡◌, refl, List, [], ◌∷◌, Option, none, some, Bool, true, false, not, ◌&&◌, String,
  arith, if◌then◌else◌, leb, nat_beq, nat_beq_iff, length, count_if, count_if-append,
  count_if_congr, count_if_none, ◌==◌, string_key, list_beq, list_beq_iff, ap, ◌∙◌, sym, Bool-cases,
  Option-cases, inl, inr,
}
use text.Mathlib.TextEquality.{eq_iff}
use ditto.Disk.{File, Disk}
use ditto.Scan.Types.{FileInfo, HashedFile, new_progress}
use ditto.Scan.Grouper.{count_if-grouped, count_if-grouped_zero}
use ditto.Scan.Cache.{FileCache, Turn, hits_of, misses_of, run_cache_check_lem}
use ditto.Scan.Hasher.{
  ReadFaults, HashResult, hashed, open_error, read_error, hash_partial, hash_full, prefix,
  prefix_of_short, partial_hash_bytes, run_partial_hashers, run_full_hashers, run_size_router,
  small, large,
}
use ditto.Scan.PriorityQueue.{run_size_priority_queue, count_if-run_size_priority_queue}
use ditto.Scan.Pipeline.Wiring.{
  Schedule, staffed, IsStaffed, staffed_lem, fresh, in_lane, to_candidates, to_routed_lem,
  to_grouped, to_hashed, run_pipeline,
}
use ditto.Scan.Pipeline.Stages.{
  passes, is_small, count_if-run_partial_hashers, count_if-run_full_hashers,
  count_if-run_size_router,
}

abbrev pub holds : Option File → List ℕ → Bool
holds none c = false
holds (some f) c = list_beq f.content c

-- The file was walked with the size of the content `c`, and has that content.
abbrev pub is_copy : Disk → List ℕ → FileInfo → Bool
is_copy d c fi = nat_beq fi.size (length c) && holds (d fi.path) c

module _ (sha : List ℕ → String) (d : Disk) (c : List ℕ) where
  -- A copy with the hash of the content.
  abbrev pub arrives : HashedFile → Bool
  arrives hf = is_copy d c hf.file_info && (hf.hash == sha c)

  -- A copy with the partial hash of the content, or with another hash.
  abbrev grouped_copy : HashedFile → Bool
  grouped_copy hf = is_copy d c hf.file_info && (hf.hash == sha (prefix c))

  abbrev odd_copy : HashedFile → Bool
  odd_copy hf = is_copy d c hf.file_info && not (hf.hash == sha (prefix c))

  -- The file has the partial hash of the content.
  abbrev pub has_prefix : ReadFaults → FileInfo → Bool
  has_prefix φ fi = passes (λ hf. hf.hash == sha (prefix c)) fi (hash_partial sha φ d fi.path)

module _ (sha : List ℕ → String) (φ : ReadFaults) (d : Disk)
    (readable : (p : String) → (φ.open_file p ≡ false) × (φ.read p ≡ false)) (c : List ℕ) where
  copy-content :
      (fi : FileInfo) → is_copy d c fi ≡ true → (f : File) × (d fi.path ≡ some f) × (f.content ≡ c)
  copy-content fi h = elim (Option-cases (d fi.path)) [
    | inl e ↦ absurd (ground arith)
    | inr (f, e) ↦ (f, e, ground (arith, list_beq_iff f.content c))
  ]

  pub hash_partial-copy :
      (fi : FileInfo)
      → is_copy d c fi ≡ true
      → hash_partial sha φ d fi.path ≡ hashed (sha (prefix c)) (length (prefix c))
  unfolding hash_partial
  hash_partial-copy fi h = let (f, at, same) = copy-content fi h in ground (arith, readable fi.path)

  hash_full-copy :
      (fi : FileInfo)
      → is_copy d c fi ≡ true
      → hash_full sha φ d fi.path ≡ hashed (sha c) (length c)
  unfolding hash_full
  hash_full-copy fi h = let (f, at, same) = copy-content fi h in ground (arith, readable fi.path)

  passes-none :
      (p : HashedFile → Bool) (fi : FileInfo) (r : HashResult)
      → ((hf : HashedFile) → p hf ≡ true → is_copy d c hf.file_info ≡ true)
      → is_copy d c fi ≡ false
      → passes p fi r ≡ false
  passes-none p fi (hashed h n) sub no_copy =
      ground (arith, sub (record { file_info = fi; hash = h }))
  passes-none p fi open_error sub no_copy = refl
  passes-none p fi read_error sub no_copy = refl

  -- A full hasher passes exactly the copies on, with the whole digest.
  passes-full :
      (fi : FileInfo) → passes (arrives sha d c) fi (hash_full sha φ d fi.path) ≡ is_copy d c fi
  passes-full fi = elim (Bool-cases (is_copy d c fi)) [
    | inl h ↦ rw (hash_full-copy fi h) (ground (arith, eq_iff (sha c) (sha c)))
    | inr h ↦ passes-none (arrives sha d c) fi _ (λ hf e. ground arith) h ∙ sym h
  ]

  passes-partial :
      (fi : FileInfo)
      → (passes (grouped_copy sha d c) fi (hash_partial sha φ d fi.path) ≡ is_copy d c fi)
        × (passes (odd_copy sha d c) fi (hash_partial sha φ d fi.path) ≡ false)
  passes-partial fi = elim (Bool-cases (is_copy d c fi)) [
    | inl h ↦ rw (hash_partial-copy fi h) (ground (arith, eq_iff (sha (prefix c)) (sha (prefix c))))
    | inr h ↦ (
      passes-none (grouped_copy sha d c) fi _ (λ hf e. ground arith) h ∙ sym h,
      passes-none (odd_copy sha d c) fi _ (λ hf e. ground arith) h,
    )
  ]

  -- Of the files that a test passes, those of the content's size go to the lane of that size.
  count_if-split :
      (p q : HashedFile → Bool) (xs : List HashedFile)
      → count_if p xs ≡ count_if (λ x. p x && q x) xs + count_if (λ x. p x && not (q x)) xs
  count_if-split p q [] = refl
  count_if-split p q (x ∷ xs) = ground (arith, count_if-split p q xs)

  count_if-small :
      (g : List HashedFile)
      → leb (length c) partial_hash_bytes ≡ true
      → (count_if (λ x. is_copy d c x.file_info && not (is_small x)) g ≡ 0)
        × (count_if (λ x. arrives sha d c x && is_small x) g ≡ count_if (grouped_copy sha d c) g)
  count_if-small g short =
      let whole : prefix c ≡ c = prefix_of_short c (ground arith) in
      (
        count_if_none _ (λ x. ground (arith, nat_beq_iff x.size (length c))) g,
        count_if_congr _ _
            (λ x.
              let same : (x.hash == sha (prefix c)) ≡ (x.hash == sha c) =
                ap (λ y. x.hash == sha y) whole in
              ground (arith, nat_beq_iff x.size (length c)))
            g,
      )

  count_if-large :
      (g : List HashedFile)
      → leb (length c) partial_hash_bytes ≡ false
      → count_if (odd_copy sha d c) g ≡ 0
      → (count_if (λ x. is_copy d c x.file_info && not (is_small x)) g
          ≡ count_if (grouped_copy sha d c) g)
        × (count_if (λ x. arrives sha d c x && is_small x) g ≡ 0)
  count_if-large g long even =
      let copies =
        count_if_congr (λ x. is_copy d c x.file_info && not (is_small x))
          (λ x. is_copy d c x.file_info) (λ x. ground (arith, nat_beq_iff x.size (length c))) g in
      let halves =
        count_if-split (λ x. is_copy d c x.file_info) (λ x. x.hash == sha (prefix c)) g in
      (omega arith, count_if_none _ (λ x. ground (arith, nat_beq_iff x.size (length c))) g)

  module _ (took : String → ℕ) (cache : FileCache) (turns : ℕ → Turn) (σ : Schedule)
      (staff : IsStaffed σ.cfg) where
    -- Of files none of whose copies has an odd hash, the hashing passes on the grouped copies.
    count_if-to_hashed :
        (g : List HashedFile)
        → count_if (odd_copy sha d c) g ≡ 0
        → count_if (arrives sha d c) (to_hashed sha φ d took cache turns σ g)
          ≡ count_if (grouped_copy sha d c) g
    unfolding to_hashed
    count_if-to_hashed g even =
        let F = arrives sha d c in
        let lanes = run_size_router (3 * length g) g in
        let waiting = in_lane large lanes in
        let queued = run_size_priority_queue σ.heap (2 * length waiting + 1) σ.accepts waiting in
        let hashed = (run_full_hashers sha φ d took (3 * length queued) fresh queued).1 in
        let all_hashed = ap (count_if F) (staffed_lem σ.cfg.full_hashers hashed staff.2) in
        let hashed_large = count_if-run_full_hashers sha φ d took F fresh queued in
        let copies_large =
          count_if_congr (λ x. passes F x.file_info (hash_full sha φ d x.path))
            (λ x. is_copy d c x.file_info) (λ x. passes-full x.file_info) queued in
        let mixed =
          count_if-run_size_priority_queue σ.heap σ.accepts waiting
            (λ x. is_copy d c x.file_info) in
        let routed_large = (count_if-run_size_router (λ x. is_copy d c x.file_info) g).1 in
        let routed_small = (count_if-run_size_router F g).0 in
        let merged = count_if-append F (staffed σ.cfg.full_hashers hashed) (in_lane small lanes) in
        elim (Bool-cases (leb (length c) partial_hash_bytes)) [
          | inl short ↦ let (none_large, all_small) = count_if-small g short in omega arith
          | inr long ↦ let (all_large, none_small) = count_if-large g long even in omega arith
        ]

    -- The grouper passes the copies on if at least two misses have the partial hash.
    count_if-to_grouped :
        (misses : List FileInfo)
        → (count_if (grouped_copy sha d c) (to_grouped sha φ d took cache turns σ misses) ≡ (
            if leb 2 (count_if (has_prefix sha d c φ) misses)
            then count_if (is_copy d c) misses
            else 0))
          × (count_if (odd_copy sha d c) (to_grouped sha φ d took cache turns σ misses) ≡ 0)
    unfolding to_grouped
    count_if-to_grouped misses =
        let waiting = σ.misses.mix misses in
        let hashed = (run_partial_hashers sha φ d took (3 * length waiting) fresh waiting).1 in
        let partial = σ.partial.mix (staffed σ.cfg.partial_hashers hashed) in
        let arrived : (p : HashedFile → Bool)
            → count_if p partial ≡ count_if (λ x. passes p x (hash_partial sha φ d x.path)) misses =
          λ p.
            σ.partial.same p _
            ∙ ap (count_if p) (staffed_lem σ.cfg.partial_hashers hashed staff.1)
            ∙ count_if-run_partial_hashers sha φ d took p fresh waiting
            ∙ σ.misses.same _ misses in
        let G = grouped_copy sha d c in
        let O = odd_copy sha d c in
        let copies = arrived G ∙ count_if_congr _ _ (λ x. (passes-partial x).0) misses in
        let odd = arrived O ∙ count_if_none _ (λ x. (passes-partial x).1) misses in
        let keyed = arrived (λ hf. hf.hash == sha (prefix c)) in
        (
          count_if-grouped (3 * length partial) partial (sha (prefix c)) G (omega arith)
                (λ hf e. ground arith)
              ∙ rw (keyed, copies) refl,
          count_if-grouped_zero (3 * length partial) partial O (omega arith) odd,
        )

    -- In a scan that is not cancelled, with a worker for every stage, readable files and working
    -- queries, the DB writer
    -- receives a file with the hash of the content `c` as a cache hit; and each copy of `c` that
    -- misses the cache, if at least two of the misses have its partial hash, and else none.
    pub count_if-run_pipeline :
        (walked : List FileInfo)
        → ((j : ℕ) → (turns j).fails ≡ false)
        → count_if (arrives sha d c) (run_pipeline sha φ d took cache turns σ walked)
          ≡ count_if
              (arrives sha d c)
              (hits_of cache (to_candidates sha φ d took cache turns σ walked))
            + (if leb 2 (
                  count_if
                    (has_prefix sha d c φ)
                    (misses_of cache (to_candidates sha φ d took cache turns σ walked)))
                then count_if
                    (is_copy d c)
                    (misses_of cache (to_candidates sha φ d took cache turns σ walked))
                else 0)
    unfolding run_pipeline
    count_if-run_pipeline walked ok =
        let F = arrives sha d c in
        let cands = to_candidates sha φ d took cache turns σ walked in
        let (hits, misses) = run_cache_check_lem cache turns new_progress cands ok in
        let (grouped, even) = count_if-to_grouped (misses_of cache cands) in
        let kept = to_grouped sha φ d took cache turns σ (misses_of cache cands) in
        let sent = count_if-to_hashed kept even in
        σ.merged.same F _
        ∙ rw (to_routed_lem sha φ d took cache turns σ walked staff.0, hits, misses)
            (count_if-append F (hits_of cache cands) (to_hashed sha φ d took cache turns σ kept)
              ∙ rw (sent, grouped) refl)
