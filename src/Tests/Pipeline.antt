-- ===== src/Tests/Pipeline.antt =====
-- The pipeline (internal/scan) on three files.
use ditto.Prelude.{
  pos, ℕ, if◌then◌else◌, ◌==◌, string_key, ◌≡◌, ◌≤◌, refl, List, [], ◌∷◌, none, some, arith,
  count_if,
}
use ditto.Scan.Types.{FileInfo}
use ditto.Scan.Goroutine.{drive}
use ditto.Scan.Pairing.{pair_step}
use ditto.Scan.Accumulator.{run_size_accumulator, accumulate}
use ditto.Scan.Hasher.{hash_partial, prefix_of_short}
use ditto.Scan.Cache.{FileCache, hits_of, misses_of, route}
use ditto.Scan.Config.{ScanConfig}
use ditto.Scan.Pipeline.Wiring.{Schedule, run_pipeline, to_candidates}
use ditto.Scan.Pipeline.Duplicates.{is_copy, arrives, has_prefix}
use ditto.Scan.Pipeline.Complete.{
  empty_cache, cold_complete, lone_miss-dropped, wrong-cached, is_wrong,
}
use ditto.Tables.{CacheEntry}
use ditto.Tests.Data.{digest, readable, disk, walked, turns, schedule, staff, path_a, path_b, info}

abbrev content : List ℕ
content = 1 ∷ 2 ∷ []

cold_complete_example :
    count_if
      (arrives digest disk content)
      (run_pipeline digest readable disk (λ _. 1) empty_cache turns schedule walked)
    ≡ count_if (is_copy disk content) walked
cold_complete_example =
    cold_complete digest readable disk (λ _. 1) turns schedule (refl, refl, refl)
      (λ p. (refl, refl)) (λ j. refl) content walked (omega arith) (ground arith)

wrong-cached_example :
    count_if
      (is_wrong digest readable disk)
      (run_pipeline digest readable disk (λ _. 1) empty_cache turns schedule walked)
    ≡ count_if (is_wrong digest readable disk) (
        hits_of empty_cache
          (to_candidates digest readable disk (λ _. 1) empty_cache turns schedule walked))
wrong-cached_example =
    wrong-cached digest readable disk (λ _. 1) empty_cache turns schedule (refl, refl, refl) walked
      (λ j. refl)

-- The first copy is in the cache.
abbrev cached_entry : CacheEntry
cached_entry = record {
  path = path_a;
  size = 2;
  mtime = 5;
  full_hash = "one_two";
  cached_at = 4;
  scan_id = 1;
}

abbrev pub warm_cache : FileCache
warm_cache p = if p == path_a then some cached_entry else none

abbrev copies : List FileInfo
copies = info path_a ∷ info path_b ∷ []

candidates :
    to_candidates digest readable disk (λ _. 1) warm_cache turns schedule copies
    ≡ info path_a ∷ info path_b ∷ []
unfolding to_candidates run_size_accumulator drive accumulate pair_step
candidates = refl

one_miss : count_if (has_prefix digest disk content readable) (misses_of warm_cache copies) ≡ 1
unfolding route hash_partial
one_miss = rw (prefix_of_short content (omega arith)) refl

lone :
    count_if (has_prefix digest disk content readable) (
      misses_of warm_cache
        (to_candidates digest readable disk (λ _. 1) warm_cache turns schedule copies))
    ≤ 1
lone = rw candidates (rw one_miss (omega arith))

lone_miss-dropped_example :
    count_if
      (arrives digest disk content)
      (run_pipeline digest readable disk (λ _. 1) warm_cache turns schedule copies)
    ≡ count_if (arrives digest disk content) (
        hits_of warm_cache
          (to_candidates digest readable disk (λ _. 1) warm_cache turns schedule copies))
lone_miss-dropped_example =
    lone_miss-dropped digest readable disk (λ _. 1) turns schedule (refl, refl, refl)
      (λ p. (refl, refl)) (λ j. refl) warm_cache content copies lone

abbrev unchecked : ScanConfig
unchecked = record staff { cache_checkers = pos 0 }

abbrev unchecked_schedule : Schedule
unchecked_schedule = record schedule { cfg = unchecked }
