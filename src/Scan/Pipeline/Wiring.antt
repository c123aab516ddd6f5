-- ===== src/Scan/Pipeline/Wiring.antt =====
-- The stages in sequence, as runPipeline wires them (internal/scan/scan.go), in a scan that is not
-- cancelled. Where a channel has several senders or receivers, the order of the items is not fixed:
-- there a `Mixing` stands for the schedule.
use ditto.Prelude.{
  ℕ, zero, suc, ℤ, pos, negsuc, rounds, at_least, true, arith, ap, refl, ◌+◌, ◌*◌, ◌≡◌, List, [],
  ◌∷◌, ◌++◌, Bool, String, length, count_if,
}
use ditto.Disk.{Disk}
use ditto.Scan.Types.{FileInfo, HashedFile, new_progress}
use ditto.Scan.Config.{ScanConfig}
use ditto.Scan.PriorityQueue.{SizeHeap, run_size_priority_queue}
use ditto.Scan.Accumulator.{run_size_accumulator}
use ditto.Scan.Cache.{FileCache, Turn, Routed, run_cache_check}
use ditto.Scan.Hasher.{
  ReadFaults, HashState, run_partial_hashers, run_full_hashers, run_size_router, Lane, small, large,
}
use ditto.Scan.Grouper.{run_partial_hash_grouper}

-- An order in which a channel hands its items on: none is lost or repeated.
pub record Mixing (A : Type 0) : Type 0 where
  pub mix : List A → List A
  pub same : (p : A → Bool) (xs : List A) → count_if p (mix xs) ≡ count_if p xs

abbrev pub in_lane : Lane → List (Lane × HashedFile) → List HashedFile
in_lane l [] = []
in_lane small ((small, f) ∷ fs) = f ∷ in_lane small fs
in_lane small ((large, f) ∷ fs) = in_lane small fs
in_lane large ((small, f) ∷ fs) = in_lane large fs
in_lane large ((large, f) ∷ fs) = f ∷ in_lane large fs

-- The configuration of a scan and its schedule: the order of the items, and when the priority queue
-- receives and when it sends.
pub record Schedule : Type 0 where
  pub cfg : ScanConfig
  pub candidates : Mixing FileInfo
  pub misses : Mixing FileInfo
  pub partial : Mixing HashedFile
  pub heap : SizeHeap
  pub accepts : ℕ → Bool
  pub merged : Mixing HashedFile

-- What a hasher starts with.
abbrev pub fresh : HashState
fresh = record { progress = new_progress; reported = [] }

-- What a stage of `n` workers receives, or sends: the loop over the workers starts none if `n` is not
-- positive, and then no file is received, and the output is closed at once. (As long as the
-- channel before it holds what is sent to it; else the sender waits.)
abbrev pub staffed : {A : Type 0} → ℤ → List A → List A
staffed n xs = elim (rounds n) [ zero ↦ [] | suc _ ↦ xs ]

-- Every stage has a worker.
abbrev pub IsStaffed : ScanConfig → Type 0
IsStaffed c =
    (at_least 1 c.cache_checkers ≡ true)
    × (at_least 1 c.partial_hashers ≡ true)
    × (at_least 1 c.full_hashers ≡ true)

pub staffed_lem : {A : Type 0} (n : ℤ) (xs : List A) → at_least 1 n ≡ true → staffed n xs ≡ xs
staffed_lem (pos zero) xs h = absurd (ground arith)
staffed_lem (pos (suc n)) xs h = refl
staffed_lem (negsuc n) xs h = absurd (ground arith)

module _ (sha : List ℕ → String) (φ : ReadFaults) (d : Disk) (took : String → ℕ) (cache : FileCache)
    (turns : ℕ → Turn) (σ : Schedule) where
  -- Walked files to candidates.
  unfoldable pub to_candidates : List FileInfo → List FileInfo
  to_candidates walked =
      σ.candidates.mix (run_size_accumulator (3 * length walked) new_progress walked).1

  -- Candidates to cache hits and misses.
  unfoldable pub to_routed : List FileInfo → Routed
  to_routed walked =
      run_cache_check cache turns new_progress (staffed σ.cfg.cache_checkers (to_candidates walked))

  pub to_routed_lem :
      (walked : List FileInfo)
      → at_least 1 σ.cfg.cache_checkers ≡ true
      → to_routed walked ≡ run_cache_check cache turns new_progress (to_candidates walked)
  unfolding to_routed
  to_routed_lem walked some_checker =
      ap (run_cache_check cache turns new_progress)
        (staffed_lem σ.cfg.cache_checkers (to_candidates walked) some_checker)

  -- Misses to the files that share their partial hash with another miss.
  unfoldable pub to_grouped : List FileInfo → List HashedFile
  to_grouped misses =
      let waiting = σ.misses.mix misses in
      let partial = σ.partial.mix (
        staffed σ.cfg.partial_hashers
          (run_partial_hashers sha φ d took (3 * length waiting) fresh waiting).1) in
      run_partial_hash_grouper (3 * length partial) partial

  -- Those files, with their full hashes.
  unfoldable pub to_hashed : List HashedFile → List HashedFile
  to_hashed grouped =
      let lanes = run_size_router (3 * length grouped) grouped in
      let waiting = in_lane large lanes in
      let queued = run_size_priority_queue σ.heap (2 * length waiting + 1) σ.accepts waiting in
      staffed σ.cfg.full_hashers (run_full_hashers sha φ d took (3 * length queued) fresh queued).1
      ++ in_lane small lanes

  -- What the DB writer receives: the cache hits, merged with the hashed files.
  unfoldable pub run_pipeline : List FileInfo → List HashedFile
  run_pipeline walked =
      let routed = to_routed walked in
      σ.merged.mix (routed.hits ++ to_hashed (to_grouped routed.misses))
