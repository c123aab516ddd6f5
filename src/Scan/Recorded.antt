-- ===== src/Scan/Recorded.antt =====
-- A first scan from its roots to the tables (runPipeline of internal/scan/scan.go with RunDBWriter of
-- internal/scan/writer.go).
use ditto.Prelude.{
  ℕ, ◌*◌, ◌≡◌, ◌≢◌, ◌≤◌, refl, List, [], ◌∷◌, Bool, false, String, length, count_if, count_if-keep,
  arith, rounds, ◌∙◌, ◌==◌, string_key,
}
use ditto.Disk.{Disk}
use ditto.Scan.Types.{HashedFile}
use ditto.Scan.Cache.{Turn}
use ditto.Scan.Hasher.{ReadFaults}
use ditto.Scan.Walker.Worker.{Tree, walk}
use ditto.Scan.Walker.Files.{IsFinite}
use ditto.Scan.Walker.Turns.{Uncancelled}
use ditto.Scan.Walker.Leaving.{AllExited}
use ditto.Scan.Walker.Complete.{found_below_all, walk_within}
use ditto.Scan.Pipeline.Wiring.{Schedule, IsStaffed}
use ditto.Scan.Pipeline.Duplicates.{is_copy, arrives}
use ditto.Scan.Pipeline.Complete.{empty_cache}
use ditto.Scan.Pipeline.Once.{is_at, hashed_at, run_pipeline_once}
use ditto.Scan.Whole.{scan, scan_complete}
use ditto.Scan.Writer.Defs.{group_batch_size, Store, GroupEntry, TxFaults, Run, ok}
use ditto.Scan.Writer.Collect.{run_db_writer, of_hash}
use ditto.Scan.Writer.View.{view, listed_of}
use ditto.Scan.Writer.Recorded.{IsIteration, run_db_writer_lem}

-- Tables without a row.
abbrev pub new_store : Store
new_store = record { groups = []; files = []; last_group_id = 0; last_file_id = 0 }

count_if-le-length : (p : HashedFile → Bool) (xs : List HashedFile) → count_if p xs ≤ length xs
count_if-le-length p [] = omega arith
count_if-le-length p (x ∷ xs) = ground (arith, count_if-le-length p xs)

-- What the writer leaves after a scan on empty tables.
unfoldable pub first_scan :
    Tree
    → List String
    → List (ℕ × Bool)
    → (List ℕ → String)
    → ReadFaults
    → Disk
    → (String → ℕ)
    → (ℕ → Turn)
    → Schedule
    → (String → String)
    → ℕ
    → ℕ
    → TxFaults
    → (List GroupEntry → List GroupEntry)
    → (ℕ → Bool)
    → ℕ
    → Run
first_scan t roots steps sha φ d took turns σ ext scan_id now χ order refuses live =
    (run_db_writer ext scan_id now χ order σ.cfg.batch_size refuses false live empty_cache new_store
      (scan t roots steps sha φ d took empty_cache turns σ)).1

module _ (t : Tree) (weight : String → ℕ) (finite : IsFinite t weight) (roots : List String)
    (steps : List (ℕ × Bool)) (sha : List ℕ → String) (φ : ReadFaults) (d : Disk)
    (took : String → ℕ) (turns : ℕ → Turn) (σ : Schedule) (calm : Uncancelled steps)
    (walkers : 1 ≤ rounds σ.cfg.walkers)
    (all : AllExited (walk t roots (rounds σ.cfg.walkers) steps).0) (staff : IsStaffed σ.cfg)
    (readable : (p : String) → (φ.open_file p ≡ false) × (φ.read p ≡ false))
    (answers : (j : ℕ) → (turns j).fails ≡ false) where
  -- A scan delivers no path twice, if no file is below two of the roots.
  scan_once :
      (p : String)
      → found_below_all t weight finite (is_at p) roots ≤ 1
      → count_if (hashed_at p) (scan t roots steps sha φ d took empty_cache turns σ) ≤ 1
  unfolding scan
  scan_once p one =
      let n = rounds σ.cfg.walkers in
      run_pipeline_once sha φ d took empty_cache turns σ staff p (walk t roots n steps).1.out
        answers (omega (arith, one, walk_within t weight finite (is_at p) roots n steps))

  -- A first scan that is not cancelled, over a finite tree, with a worker for every stage, a positive batch
  -- size, readable files and working queries and transactions, of which all walkers have returned: if no
  -- file is below two of the roots, the writer returns without an error, whatever the interleaving, the
  -- order of the map and the refused flushes of the cache. Where at least two regular files below the
  -- roots are copies of a content that is not empty, the tables record one group under its digest, with
  -- the paths, the count and the reclaimable bytes of the files that the scan delivered with this digest;
  -- as many of these are copies of the content as there are below the roots. The files below a root are
  -- those that are not excluded nor below an excluded directory or one that cannot be read, and whose
  -- Info is not refused.
  pub scan_recorded :
      (ext : String → String) (scan_id now live : ℕ) (χ : TxFaults)
      (order : List GroupEntry → List GroupEntry) (refuses : ℕ → Bool) (c : List ℕ)
      → 1 ≤ σ.cfg.batch_size
      → ((i : ℕ) → (χ.begin i ≡ false) × (χ.commit i ≡ false))
      → IsIteration order
      → ((p : String) → found_below_all t weight finite (is_at p) roots ≤ 1)
      → length (scan t roots steps sha φ d took empty_cache turns σ) ≤ group_batch_size * live
      → length c ≢ 0
      → 2 ≤ found_below_all t weight finite (is_copy d c) roots
      → ((first_scan t roots steps sha φ d took turns σ ext scan_id now χ order refuses live).result
          ≡ ok tt)
        × (view
              (sha c)
              (first_scan t roots steps sha φ d took turns σ ext scan_id now χ order refuses
                live).store
            ≡ listed_of (of_hash (sha c) (scan t roots steps sha φ d took empty_cache turns σ)))
        × (count_if
              (arrives sha d c)
              (of_hash (sha c) (scan t roots steps sha φ d took empty_cache turns σ))
            ≡ found_below_all t weight finite (is_copy d c) roots)
  unfolding first_scan
  scan_recorded ext scan_id now live χ order refuses c positive quiet each apart alive pos two =
      let xs = scan t roots steps sha φ d took empty_cache turns σ in
      let (done, views, hashed, groups, numbered) =
        run_db_writer_lem ext scan_id now χ quiet order each σ.cfg.batch_size live refuses
          empty_cache new_store xs positive
          ((λ h k e. absurd (ground arith)), (λ h h' k e e'. absurd (ground arith)))
          (λ p. scan_once p (apart p)) (λ h p two_files here. refl) alive in
      let delivered =
        scan_complete t weight finite roots steps sha φ d took turns σ c calm walkers all staff
          readable answers pos two in
      let same = count_if-keep (arrives sha d c) (λ f. f.hash == sha c) (λ f e. ground arith) xs in
      let many : 2 ≤ length (of_hash (sha c) xs) =
        omega (arith, count_if-le-length (arrives sha d c) (of_hash (sha c) xs), same, delivered) in
      (done, views (sha c) ∙ ground (arith, many), same ∙ delivered)
