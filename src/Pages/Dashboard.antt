-- ===== src/Pages/Dashboard.antt =====
-- The first page (internal/api/pages.go, dashboardPage). The format of a time and the orders of the queries'
-- rows are parameters.
use ditto.Prelude.{
  ℕ, ◌-◌, ◌*◌, ◌/◌, ◌^◌, List, [], ◌∷◌, ◌++◌, none, some, Bool, true, false, not, ◌&&◌, ◌||◌,
  String, pos, if◌then◌else◌, ltb, leb, keep, take, length,
}
use ditto.Scan.Types.{add64, unix}
use ditto.Scan.Records.{
  ScanRow, ScanStatus, ScanTrigger, Snapshot, running, completed, failed, cancelled, find_row,
}
use ditto.Scan.Handlers.{or_zero, is_positive}
use ditto.Tables.{DuplicateGroup}
use ditto.Trash.Manager.{Deletion}
use ditto.Trash.Purge.{logged_bytes}
use ditto.Pages.Groups.{active_groups, sum_counts, sum_reclaimable}
use ditto.Pages.Format.{Text, format_nat, format_duration}

-- scanHistoryItem.
pub record ScanHistoryItem : Type 0 where
  pub id : ℕ
  pub started_at : String
  pub duration : Text
  pub files_discovered : ℕ
  pub duplicate_groups : ℕ
  pub reclaimable_bytes : ℕ
  pub error_count : ℕ
  pub status : ScanStatus
  pub triggered_by : ScanTrigger
  pub cache_hit_str : Text
  pub files_per_sec : ℕ
  pub disk_read_ms : ℕ
  pub db_read_ms : ℕ
  pub db_write_ms : ℕ
  pub total_timing_ms : ℕ

-- snapshotPoint.
pub record SnapshotPoint : Type 0 where
  pub date : String
  pub duplicate_groups : ℕ
  pub reclaimable_bytes : ℕ
  pub cum_reclaimed : ℕ
  pub duration_seconds : ℕ

-- dashboardData.
pub record DashboardPage : Type 0 where
  pub groups : ℕ
  pub files : ℕ
  pub reclaimable : ℕ
  pub deleted_all_time : ℕ
  pub reclaimed_all_time : ℕ
  pub deleted_30d : ℕ
  pub reclaimed_30d : ℕ
  pub recent_scans : List ScanHistoryItem
  pub snapshots : List SnapshotPoint

-- Which queries are refused.
pub record DashboardFaults : Type 0 where
  pub active : Bool
  pub all_time : Bool
  pub last_30d : Bool
  pub scans : Bool
  pub trend : Bool

abbrev pub has_ended : ScanStatus → Bool
has_ended running = false
has_ended completed = true
has_ended failed = true
has_ended cancelled = true

-- COUNT and SUM of rows of the log. The row is lost where the sum is no signed 64-bit integer.
unfoldable pub log_totals : Bool → List Deletion → ℕ × ℕ
log_totals refused ds =
    if refused || leb (2 ^ 63) (logged_bytes ds) then (0, 0) else (length ds, logged_bytes ds)

-- Thirty days before `now`, which is in nanoseconds; the log has no time before 1970.
abbrev pub since_30d : ℕ → ℕ
since_30d now = unix (now - 30 * 24 * 3600 * 1_000_000_000)

-- The share of the hits; hits are fewer than 2 ^ 56, below which the product does not overflow.
abbrev pub cache_hit_text : ℕ → ℕ → Text
cache_hit_text hits misses =
    let total = add64 hits misses in
    if is_positive total then format_nat (hits * 100 / total) ++ b'%' ∷ [] else []

module _ (date_time short_date : ℕ → String) where
  abbrev pub scan_history_item : ScanRow → ScanHistoryItem
  scan_history_item r =
      let secs = or_zero r.duration_seconds in
      record {
        id = r.id;
        started_at = date_time r.started_at;
        duration = format_duration (pos secs);
        files_discovered = r.files_discovered;
        duplicate_groups = r.duplicate_groups;
        reclaimable_bytes = r.reclaimable_bytes;
        error_count = r.errors;
        status = r.status;
        triggered_by = r.triggered_by;
        cache_hit_str = cache_hit_text r.cache_hits r.cache_misses;
        files_per_sec = if ltb 0 secs then r.files_discovered / secs else 0;
        disk_read_ms = r.disk_read_ms;
        db_read_ms = r.db_read_ms;
        db_write_ms = r.db_write_ms;
        total_timing_ms = add64 (add64 r.disk_read_ms r.db_read_ms) r.db_write_ms;
      }

  abbrev pub recent_items : List ScanRow → List ScanHistoryItem
  recent_items [] = []
  recent_items (r ∷ rs) = scan_history_item r ∷ recent_items rs

  -- The snapshots joined with their scans.
  abbrev pub trend : List ScanRow → List Snapshot → List SnapshotPoint
  trend rows [] = []
  trend rows (s ∷ ss) = elim (find_row s.scan_id rows) [
    | none ↦ trend rows ss
    | some r ↦
        record {
          date = short_date s.snapshot_at;
          duplicate_groups = s.duplicate_groups;
          reclaimable_bytes = s.reclaimable_bytes;
          cum_reclaimed = s.cumulative_reclaimed_bytes;
          duration_seconds = or_zero r.duration_seconds;
        }
        ∷ trend rows ss
  ]

  -- dashboardPage: `newest` orders the scans and `oldest` the snapshots.
  unfoldable pub dashboard_page :
      (List ScanRow → List ScanRow)
      → (List Snapshot → List Snapshot)
      → DashboardFaults
      → ℕ
      → List DuplicateGroup
      → List Deletion
      → List ScanRow
      → List Snapshot
      → DashboardPage
  dashboard_page newest oldest χ now groups log rows snapshots =
      let active = active_groups groups in
      let summed =
        not χ.active && ltb (sum_counts active) (2 ^ 63) && ltb (sum_reclaimable active) (2 ^ 63) in
      let (deleted, reclaimed) = log_totals χ.all_time log in
      let (deleted_30d, reclaimed_30d) =
        log_totals χ.last_30d (keep (λ d. leb (since_30d now) d.deleted_at) log) in
      record {
        groups = if summed then length active else 0;
        files = if summed then sum_counts active else 0;
        reclaimable = if summed then sum_reclaimable active else 0;
        deleted_all_time = deleted;
        reclaimed_all_time = reclaimed;
        deleted_30d = deleted_30d;
        reclaimed_30d = reclaimed_30d;
        recent_scans =
            if χ.scans
            then []
            else recent_items (take 10 (newest (keep (λ r. has_ended r.status) rows)));
        snapshots = if χ.trend then [] else trend rows (oldest snapshots);
      }
