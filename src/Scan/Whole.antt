-- ===== src/Scan/Whole.antt =====
-- A scan from its roots to the DB writer (runPipeline of internal/scan/scan.go): the walk and the stages
-- behind it.
use ditto.Prelude.{
  ℕ, ◌≡◌, ◌≢◌, ◌≤◌, List, Bool, false, String, length, count_if, arith, rounds, ◌∙◌,
}
use ditto.Disk.{Disk}
use ditto.Scan.Types.{HashedFile}
use ditto.Scan.Cache.{Turn}
use ditto.Scan.Hasher.{ReadFaults}
use ditto.Scan.Walker.Worker.{Tree, walk}
use ditto.Scan.Walker.Files.{IsFinite}
use ditto.Scan.Walker.Turns.{Uncancelled}
use ditto.Scan.Walker.Leaving.{AllExited}
use ditto.Scan.Walker.Complete.{found_below_all, walk_complete}
use ditto.Scan.Cache.{FileCache}
use ditto.Scan.Pipeline.Wiring.{Schedule, IsStaffed, run_pipeline}
use ditto.Scan.Pipeline.Duplicates.{is_copy, arrives}
use ditto.Scan.Pipeline.Complete.{empty_cache, cold_complete}

-- The walk along `steps` with the walkers of the configuration, and the stages on what it sent.
unfoldable pub scan :
    Tree
    → List String
    → List (ℕ × Bool)
    → (List ℕ → String)
    → ReadFaults
    → Disk
    → (String → ℕ)
    → FileCache
    → (ℕ → Turn)
    → Schedule
    → List HashedFile
scan t roots steps sha φ d took cache turns σ =
    run_pipeline sha φ d took cache turns σ (walk t roots (rounds σ.cfg.walkers) steps).1.out

-- A scan that is not cancelled, over a finite tree, with a worker for every stage, on an empty cache, with
-- readable files and working queries, of which all walkers have returned: if at least two regular files
-- below the roots are copies of a content that is not empty, each of them reaches the DB writer, with the
-- hash of that content, once for each root that it is below, however the workers are interleaved. The
-- files below a root are those that are not excluded nor below an excluded directory or one that cannot be
-- read, and whose Info is not refused.
pub scan_complete :
    (t : Tree) (weight : String → ℕ) (finite : IsFinite t weight) (roots : List String)
    (steps : List (ℕ × Bool)) (sha : List ℕ → String) (φ : ReadFaults) (d : Disk)
    (took : String → ℕ) (turns : ℕ → Turn) (σ : Schedule) (c : List ℕ)
    → Uncancelled steps
    → 1 ≤ rounds σ.cfg.walkers
    → AllExited (walk t roots (rounds σ.cfg.walkers) steps).0
    → IsStaffed σ.cfg
    → ((p : String) → (φ.open_file p ≡ false) × (φ.read p ≡ false))
    → ((j : ℕ) → (turns j).fails ≡ false)
    → length c ≢ 0
    → 2 ≤ found_below_all t weight finite (is_copy d c) roots
    → count_if (arrives sha d c) (scan t roots steps sha φ d took empty_cache turns σ)
      ≡ found_below_all t weight finite (is_copy d c) roots
unfolding scan
scan_complete t weight finite roots steps sha φ d took turns σ c calm walkers all staff readable ok
      pos two =
    let n = rounds σ.cfg.walkers in
    let walked = walk_complete t weight finite (is_copy d c) roots n steps calm walkers all in
    let out = (walk t roots n steps).1.out in
    cold_complete sha φ d took turns σ staff readable ok c out pos (omega (arith, walked)) ∙ walked
