-- ===== src/Scan/Records.antt =====
-- The record of a scan: execute, insertScanRecord, finaliseScanRecord and insertScanSnapshot
-- (internal/scan/scan.go), and MarkStaleScansFailed (internal/scan/manager.go).
use ditto.Prelude.{
  ℕ, ◌+◌, ◌-◌, ◌/◌, ◌^◌, ◌≡◌, refl, List, [], ◌∷◌, ◌++◌, Option, none, some, Bool, true, false,
  ◌&&◌, ◌||◌, arith, if◌then◌else◌, nat_beq, ltb, keep, length,
}
use ditto.Scan.Types.{Progress, unix}
use ditto.Tables.{DuplicateGroup}
use ditto.Trash.Manager.{Deletion}

pub data ScanStatus : Type 0 where
  running completed failed cancelled : ScanStatus

pub data ScanTrigger : Type 0 where
  schedule manual : ScanTrigger

-- A row of scan_history.
pub record ScanRow : Type 0 where
  pub id : ℕ
  pub started_at : ℕ
  pub finished_at : Option ℕ
  pub status : ScanStatus
  pub triggered_by : ScanTrigger
  pub files_discovered : ℕ
  pub files_hashed : ℕ
  pub cache_hits : ℕ
  pub cache_misses : ℕ
  pub duplicate_groups : ℕ
  pub duplicate_files : ℕ
  pub reclaimable_bytes : ℕ
  pub errors : ℕ
  pub duration_seconds : Option ℕ
  pub progress_candidates_found : ℕ
  pub progress_partial_hashed : ℕ
  pub progress_full_hashed : ℕ
  pub progress_bytes_read : ℕ
  pub progress_groups_written : ℕ
  pub progress_groups_total : ℕ
  pub phase2_started_at : ℕ
  pub disk_read_ms : ℕ
  pub db_read_ms : ℕ
  pub db_write_ms : ℕ
  pub created_at : ℕ

-- A row of scan_snapshots.
pub record Snapshot : Type 0 where
  pub scan_id : ℕ
  pub snapshot_at : ℕ
  pub duplicate_groups : ℕ
  pub duplicate_files : ℕ
  pub reclaimable_bytes : ℕ
  pub cumulative_deleted_files : ℕ
  pub cumulative_reclaimed_bytes : ℕ

-- The two tables; `last_id` is SQLite's counter of scan_history.
pub record History : Type 0 where
  pub rows : List ScanRow
  pub snapshots : List Snapshot
  pub last_id : ℕ

-- What the database refuses when a scan ends.
pub record ExecFaults : Type 0 where
  pub count_groups : Bool
  pub finalise : Bool
  pub count_deletions : Bool
  pub snapshot : Bool

-- A new row, with the defaults of the schema.
abbrev pub new_row : ℕ → ℕ → ScanTrigger → ScanRow
new_row k started trigger = record {
  id = k;
  started_at = unix started;
  finished_at = none;
  status = running;
  triggered_by = trigger;
  files_discovered = 0;
  files_hashed = 0;
  cache_hits = 0;
  cache_misses = 0;
  duplicate_groups = 0;
  duplicate_files = 0;
  reclaimable_bytes = 0;
  errors = 0;
  duration_seconds = none;
  progress_candidates_found = 0;
  progress_partial_hashed = 0;
  progress_full_hashed = 0;
  progress_bytes_read = 0;
  progress_groups_written = 0;
  progress_groups_total = 0;
  phase2_started_at = 0;
  disk_read_ms = 0;
  db_read_ms = 0;
  db_write_ms = 0;
  created_at = unix started;
}

-- insertScanRecord, if the database takes it.
unfoldable pub insert_scan_record : History → ℕ → ScanTrigger → History × ℕ
insert_scan_record h started trigger = (
  record h {
    rows = h.rows ++ new_row (h.last_id + 1) started trigger ∷ [];
    last_id = h.last_id + 1;
  },
  h.last_id + 1,
)

-- UPDATE scan_history … WHERE id = ?.
abbrev pub update_row : ℕ → (ScanRow → ScanRow) → List ScanRow → List ScanRow
update_row k f [] = []
update_row k f (r ∷ rs) = (if nat_beq r.id k then f r else r) ∷ update_row k f rs

abbrev pub sum_files : List DuplicateGroup → ℕ
sum_files [] = 0
sum_files (g ∷ gs) = g.file_count + sum_files gs

abbrev pub sum_bytes : List DuplicateGroup → ℕ
sum_bytes [] = 0
sum_bytes (g ∷ gs) = g.reclaimable_bytes + sum_bytes gs

abbrev pub seen_in : ℕ → List DuplicateGroup → List DuplicateGroup
seen_in k = keep (λ g. nat_beq g.last_seen_scan_id k)

-- The sums over the groups of a scan. The variables stay 0 if the query fails, as it also does when a
-- sum is not a signed 64-bit integer.
unfoldable pub group_totals : Bool → ℕ → List DuplicateGroup → ℕ × ℕ × ℕ
group_totals refused k groups =
    let gs = seen_in k groups in
    if refused
    then (0, 0, 0)
    else if ltb (sum_files gs) (2 ^ 63) && ltb (sum_bytes gs) (2 ^ 63)
    then (length gs, sum_files gs, sum_bytes gs)
    else (0, 0, 0)

-- The row as finaliseScanRecord leaves it.
abbrev pub finalised : ScanStatus → ℕ → ℕ → Progress → ℕ × ℕ × ℕ → ScanRow → ScanRow
finalised status finished duration p totals r = record r {
  status = status;
  finished_at = some finished;
  duration_seconds = some duration;
  files_discovered = p.files_discovered;
  files_hashed = p.full_hashed;
  cache_hits = p.cache_hits;
  cache_misses = p.cache_misses;
  duplicate_groups = totals.0;
  duplicate_files = totals.1;
  reclaimable_bytes = totals.2;
  errors = p.errors;
  disk_read_ms = p.disk_read_ms;
  db_read_ms = p.db_read_ms;
  db_write_ms = p.db_write_ms;
}

unfoldable pub finalise_scan_record :
    ExecFaults → History → ℕ → ScanStatus → ℕ → ℕ → Progress → List DuplicateGroup → History
finalise_scan_record χ h k status finished duration p groups =
    let totals = group_totals χ.count_groups k groups in
    if χ.finalise
    then h
    else record h { rows = update_row k (finalised status finished duration p totals) h.rows }

abbrev pub has_snapshot : ℕ → List Snapshot → Bool
has_snapshot k [] = false
has_snapshot k (s ∷ ss) = nat_beq s.scan_id k || has_snapshot k ss

abbrev pub sum_deleted : List Deletion → ℕ
sum_deleted [] = 0
sum_deleted (e ∷ es) = e.file_size + sum_deleted es

-- The totals of deletion_log, which stay 0 if the query fails.
abbrev pub deletion_totals : Bool → List Deletion → ℕ × ℕ
deletion_totals refused log =
    if refused
    then (0, 0)
    else if ltb (sum_deleted log) (2 ^ 63)
    then (length log, sum_deleted log)
    else (0, 0)

unfoldable pub insert_scan_snapshot :
    ExecFaults → History → ℕ → ℕ → List DuplicateGroup → List Deletion → History
insert_scan_snapshot χ h k now groups log =
    let totals = group_totals χ.count_groups k groups in
    let gone = deletion_totals χ.count_deletions log in
    if χ.snapshot || has_snapshot k h.snapshots then h else record h {
      snapshots =
          h.snapshots
          ++ record {
            scan_id = k;
            snapshot_at = now;
            duplicate_groups = totals.0;
            duplicate_files = totals.1;
            reclaimable_bytes = totals.2;
            cumulative_deleted_files = gone.0;
            cumulative_reclaimed_bytes = gone.1;
          }
            ∷ [];
    }

-- How a scan ends: `done` says whether its context is done, `failing` whether the pipeline returned an
-- error.
unfoldable pub final_status : Bool → Bool → ScanStatus
final_status done failing = if done then cancelled else if failing then failed else completed

abbrev pub is_completed : ScanStatus → Bool
is_completed running = false
is_completed completed = true
is_completed failed = false
is_completed cancelled = false

-- What follows the pipeline in execute, for the scan `k` that started at the time `started`, with the
-- tables that the writer has left.
unfoldable pub execute :
    ExecFaults
    → History
    → ℕ
    → ℕ
    → ℕ
    → Progress
    → Bool
    → Bool
    → List DuplicateGroup
    → List Deletion
    → History
execute χ h k started now p done failing groups log =
    let status = final_status done failing in
    let saved =
      finalise_scan_record χ h k status (unix now) ((now - started) / 1_000_000_000) p groups in
    let noted = insert_scan_snapshot χ saved k (unix now) groups log in
    if is_completed status then noted else saved

-- MarkStaleScansFailed.
abbrev pub is_running : ScanRow → Bool
is_running r = elim r.status [
  | running ↦ true
  | completed ↦ false
  | failed ↦ false
  | cancelled ↦ false
]

abbrev pub stale_failed : ℕ → ScanRow → ScanRow
stale_failed now r =
    if is_running r then record r { status = failed; finished_at = some (unix now) } else r

unfoldable pub mark_stale : ℕ → List ScanRow → List ScanRow
mark_stale now [] = []
mark_stale now (r ∷ rs) = stale_failed now r ∷ mark_stale now rs

-- SELECT … WHERE id = ?.
abbrev pub find_row : ℕ → List ScanRow → Option ScanRow
find_row k [] = none
find_row k (r ∷ rs) = if nat_beq r.id k then some r else find_row k rs

find_row-update :
    (k : ℕ) (f : ScanRow → ScanRow) (rs : List ScanRow) (r : ScanRow)
    → ((x : ScanRow) → (f x).id ≡ x.id)
    → find_row k rs ≡ some r
    → find_row k (update_row k f rs) ≡ some (f r)
find_row-update k f [] r same h = ground arith
find_row-update k f (x ∷ xs) r same h = ground (arith, same x, find_row-update k f xs r same)

-- If the database takes the update, the row of a scan that ends has its final status, the time of the
-- end, the counters and the totals of its groups.
pub execute-row :
    (χ : ExecFaults) (h : History) (k started now : ℕ) (p : Progress) (done failing : Bool)
    (groups : List DuplicateGroup) (log : List Deletion) (r : ScanRow)
    → χ.finalise ≡ false
    → find_row k h.rows ≡ some r
    → find_row k (execute χ h k started now p done failing groups log).rows
      ≡ some (
          finalised
            (final_status done failing)
            (unix now)
            ((now - started) / 1_000_000_000)
            p
            (group_totals χ.count_groups k groups)
            r)
unfolding execute finalise_scan_record insert_scan_snapshot
execute-row χ h k started now p done failing groups log r ok at =
    let row =
      finalised (final_status done failing) (unix now) ((now - started) / 1_000_000_000) p
        (group_totals χ.count_groups k groups) in
    ground (arith, find_row-update k row h.rows r (λ x. refl) at)
