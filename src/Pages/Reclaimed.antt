-- ===== src/Pages/Reclaimed.antt =====
-- The totals of the first page (internal/api/pages.go, dashboardPage) after a purge of the trash
-- (internal/trash/trash.go).
use ditto.Prelude.{
  ℕ, ◌+◌, ◌%◌, ◌^◌, ◌<◌, ◌≡◌, List, [], ◌∷◌, ◌++◌, false, String, length, length-append, arith, ap,
  ◌∙◌,
}
use ditto.Disk.{Faults}
use ditto.Scan.Types.{word}
use ditto.Scan.Records.{ScanRow, Snapshot}
use ditto.Tables.{DuplicateGroup}
use ditto.Trash.Manager.{World, Deletion, DbFaults, ok, purge_all}
use ditto.Trash.Purge.{logged_bytes, purge_all_accounts}
use ditto.Pages.Dashboard.{log_totals, DashboardFaults, dashboard_page}

logged_bytes-append :
    (ds es : List Deletion) → logged_bytes (ds ++ es) ≡ logged_bytes ds + logged_bytes es
logged_bytes-append [] es = omega arith
logged_bytes-append (d ∷ ds) es = omega (arith, logged_bytes-append ds es)

log_totals_small :
    (ds : List Deletion)
    → logged_bytes ds < 2 ^ 63
    → log_totals false ds ≡ (length ds, logged_bytes ds)
unfolding log_totals
log_totals_small ds small = ground arith

-- Rows that are appended to the log add their number and bytes to the totals.
log_totals-append :
    (log log' es : List Deletion) (count bytes : ℕ)
    → log' ≡ log ++ es
    → logged_bytes log' < 2 ^ 63
    → count % word ≡ length es % word
    → bytes % word ≡ logged_bytes es % word
    → ((log_totals false log').0 % word ≡ ((log_totals false log).0 + count) % word)
      × ((log_totals false log').1 % word ≡ ((log_totals false log).1 + bytes) % word)
log_totals-append log log' es count bytes grown small counted freed =
    let more = ap length grown ∙ length-append log es in
    let larger = ap logged_bytes grown ∙ logged_bytes-append log es in
    rw (log_totals_small log' small, log_totals_small log (omega (arith, larger)))
      (omega (arith, more), omega (arith, larger))

module _ (date_time short_date : ℕ → String) where
  -- If the database takes the rows of the log, and refuses neither the query of the purge nor the page's
  -- query of the log, and the sizes in the log sum up to a signed 64-bit integer, the number of
  -- deletions and of bytes reclaimed that the page shows has grown by what a purge of the trash answers, as
  -- 64-bit words, whatever else the purge is refused.
  pub dashboard_page-purge_all :
      (newest : List ScanRow → List ScanRow) (oldest : List Snapshot → List Snapshot)
      (χ : DashboardFaults) (now live later : ℕ) (groups : List DuplicateGroup)
      (rows : List ScanRow) (snapshots : List Snapshot) (φ : Faults) (ψ : DbFaults) (w : World)
      (count bytes : ℕ)
      → χ.all_time ≡ false
      → ψ.query ≡ false
      → ((j : ℕ) → ψ.log j ≡ false)
      → logged_bytes (purge_all φ ψ now live w).0.deletion_log < 2 ^ 63
      → (purge_all φ ψ now live w).1 ≡ ok (count, bytes)
      → ((dashboard_page date_time short_date newest oldest χ later groups
              (purge_all φ ψ now live w).0.deletion_log
              rows
              snapshots).deleted_all_time
            % word
          ≡ ((dashboard_page date_time short_date newest oldest χ now groups w.deletion_log rows
                snapshots).deleted_all_time
              + count)
            % word)
        × ((dashboard_page date_time short_date newest oldest χ later groups
                (purge_all φ ψ now live w).0.deletion_log
                rows
                snapshots).reclaimed_all_time
              % word
            ≡ ((dashboard_page date_time short_date newest oldest χ now groups w.deletion_log rows
                  snapshots).reclaimed_all_time
                + bytes)
              % word)
  unfolding dashboard_page
  dashboard_page-purge_all newest oldest χ now live later groups rows snapshots φ ψ w count bytes
        asked query free small answered =
      let (es, c, b, told, logged, counted, freed) = purge_all_accounts φ ψ now live w query free in
      let same_count : count ≡ c = cc in
      let same_bytes : bytes ≡ b = cc in
      rw asked (
        log_totals-append w.deletion_log _ es count bytes logged small
          (ap (λ n. n % word) same_count ∙ counted) (ap (λ n. n % word) same_bytes ∙ freed))
