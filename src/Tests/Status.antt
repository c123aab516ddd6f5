-- ===== src/Tests/Status.antt =====
-- The status handler (internal/api/handlers/status.go) on a history of two scans.
use ditto.Prelude.{ℕ, ◌≡◌, refl, List, [], ◌∷◌, none, some, false}
use ditto.Scan.Types.{new_progress}
use ditto.Scan.Records.{ScanRow, schedule, new_row}
use ditto.Scan.Handlers.{hit_rate}
use ditto.Tests.Settings.{job_table, idle_scheduler}
use ditto.Status.{CompletedScanInfo, serve_status, last_completed_scan}
use ditto.Tests.Scans.{floats, date, row}

abbrev ended : ScanRow
ended = record row { finished_at = some 12; reclaimable_bytes = 500; cache_misses = 9 }

abbrev history_rows : List ScanRow
history_rows = new_row 1 3_000_000_000 schedule ∷ ended ∷ []

abbrev same : List ScanRow → List ScanRow
same rs = rs

abbrev last : CompletedScanInfo ℕ
last = record {
  id = 2;
  finished_at = date 12;
  duplicate_groups = 0;
  duplicate_files = 0;
  reclaimable_bytes = 500;
  cache_hits = 3;
  cache_misses = 9;
  cache_hit_rate = 250;
}

told :
    (serve_status date floats same "1" new_progress none job_table
      (some idle_scheduler)
      false
      history_rows).last_completed_scan
    ≡ some last
unfolding serve_status last_completed_scan hit_rate
told = refl
