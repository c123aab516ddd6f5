-- ===== src/Status.antt =====
-- StatusHandler (internal/api/handlers/status.go) and StatsHandler (internal/api/handlers/stats.go).
-- Floating-point numbers, the format of a time and the order of the query's rows are parameters; the times
-- of the cron library are in seconds, as it keeps them.
use ditto.Prelude.{
  ℕ, List, [], ◌∷◌, Option, none, some, Bool, true, false, String, if◌then◌else◌, keep,
}
use ditto.Scan.Types.{Progress, unix}
use ditto.Scan.Records.{ScanRow, ScanStatus, ScanTrigger, is_completed}
use ditto.Scan.Manager.{Manager, ActiveScan}
use ditto.Scan.Handlers.{Floats, hit_rate}
use ditto.Scheduler.{Cron, Scheduler, next_run_at}
pub mod Latest

pub record ScanProgressInfo : Type 0 where
  pub files_discovered : ℕ
  pub candidates_found : ℕ
  pub partial_hashed : ℕ
  pub full_hashed : ℕ
  pub bytes_read : ℕ
  pub cache_hits : ℕ
  pub cache_misses : ℕ

pub record ActiveScanInfo : Type 0 where
  pub id : ℕ
  pub started_at : String
  pub triggered_by : ScanTrigger
  pub progress : ScanProgressInfo

pub record ScheduleInfo : Type 0 where
  pub cron : String
  pub paused : Bool
  pub next_run_at : Option String

pub record CompletedScanInfo (Float : Type 0) : Type 0 where
  pub id : ℕ
  pub finished_at : String
  pub duplicate_groups : ℕ
  pub duplicate_files : ℕ
  pub reclaimable_bytes : ℕ
  pub cache_hits : ℕ
  pub cache_misses : ℕ
  pub cache_hit_rate : Float

pub record StatusReply (Float : Type 0) : Type 0 where
  pub version : String
  pub active_scan : Option ActiveScanInfo
  pub schedule : ScheduleInfo
  pub last_completed_scan : Option (CompletedScanInfo Float)

-- The rows of the query's WHERE.
abbrev pub completed_rows : List ScanRow → List ScanRow
completed_rows rows = keep (λ r. is_completed r.status) rows

module _ (rfc3339 : ℕ → String) where
  -- activeScan: there may be no scan manager; the counters are those of the scan at that time.
  unfoldable pub active_scan_info : Progress → Option Manager → Option ActiveScanInfo
  active_scan_info p none = none
  active_scan_info p (some m) = elim m.active [
    | none ↦ none
    | some a ↦ some (record {
      id = a.id;
      started_at = rfc3339 (unix a.started_at);
      triggered_by = a.triggered_by;
      progress = record {
        files_discovered = p.files_discovered;
        candidates_found = p.candidates_found;
        partial_hashed = p.partial_hashed;
        full_hashed = p.full_hashed;
        bytes_read = p.bytes_read;
        cache_hits = p.cache_hits;
        cache_misses = p.cache_misses;
      };
    })
  ]

  abbrev next_time : Option ℕ → Option String
  next_time none = none
  next_time (some t) = some (rfc3339 t)

  -- schedule: there may be no scheduler.
  unfoldable pub schedule_info : (cron : Cron) → Option (Scheduler cron) → ScheduleInfo
  schedule_info cron none = record { cron = "0 2 * * 0"; paused = false; next_run_at = none }
  schedule_info cron (some s) = record {
    cron = s.cron_expr;
    paused = false;
    next_run_at = next_time (next_run_at cron s);
  }

  module _ (F : Floats) where
    -- The first row of the query. A finished_at that is NULL cannot be scanned.
    abbrev pub first_completed : List ScanRow → Option (CompletedScanInfo F.Float)
    first_completed [] = none
    first_completed (r ∷ rs) = elim r.finished_at [
      | none ↦ none
      | some t ↦ some (record {
        id = r.id;
        finished_at = rfc3339 t;
        duplicate_groups = r.duplicate_groups;
        duplicate_files = r.duplicate_files;
        reclaimable_bytes = r.reclaimable_bytes;
        cache_hits = r.cache_hits;
        cache_misses = r.cache_misses;
        cache_hit_rate = hit_rate F rfc3339 r.cache_hits r.cache_misses;
      })
    ]

    -- lastCompletedScan: `latest` orders the rows, and `refused` says whether the query is refused.
    unfoldable pub last_completed_scan :
        (List ScanRow → List ScanRow) → Bool → List ScanRow → Option (CompletedScanInfo F.Float)
    last_completed_scan latest refused rows =
        if refused then none else first_completed (latest (completed_rows rows))

    -- ServeHTTP.
    unfoldable pub serve_status :
        (List ScanRow → List ScanRow)
        → String
        → Progress
        → Option Manager
        → (cron : Cron) → Option (Scheduler cron)
        → Bool
        → List ScanRow
        → StatusReply F.Float
    serve_status latest version p m cron s refused rows = record {
      version = version;
      active_scan = active_scan_info p m;
      schedule = schedule_info cron s;
      last_completed_scan = last_completed_scan latest refused rows;
    }

-- StatsHandler (internal/api/handlers/stats.go), which reads nothing.
pub record StatsReply : Type 0 where
  pub deleted_files : ℕ
  pub reclaimed_bytes : ℕ
  pub deleted_files_30d : ℕ
  pub reclaimed_bytes_30d : ℕ

abbrev pub serve_stats : StatsReply
serve_stats = record {
  deleted_files = 0;
  reclaimed_bytes = 0;
  deleted_files_30d = 0;
  reclaimed_bytes_30d = 0;
}
