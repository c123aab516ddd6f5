-- ===== src/Pages/Fragment.antt =====
-- The fragment that polls the scan, and the page of the settings (internal/api/pages.go, scanStatusFragment
-- and settingsPage). The formats of times, the order of the query's rows and strings.Join are parameters.
use ditto.Prelude.{
  ℕ, zero, suc, ◌+◌, ◌-◌, ◌*◌, ◌/◌, List, [], ◌∷◌, Option, none, some, Bool, true, false, String, ℤ,
  pos, negsuc, if◌then◌else◌, ltb, leb,
}
use ditto.Scan.Types.{Progress, unix}
use ditto.Scan.Records.{ScanRow, ScanTrigger}
use ditto.Scan.Manager.{Manager, ActiveScan}
use ditto.Scheduler.{Cron, Scheduler, next_run_at}
use ditto.Settings.Defs.{Config}
use ditto.Status.{completed_rows}

-- The phase of a scan, as scan_status.html reads it.
pub data Phase : Type 0 where
  idle scanning writing : Phase

-- scanStatusData.
pub record ScanStatusPage : Type 0 where
  pub scan_running : Bool
  pub scan_id : ℕ
  pub started_at : String
  pub triggered_by : Option ScanTrigger
  pub elapsed_secs : ℤ
  pub files_discovered : ℕ
  pub candidates_found : ℕ
  pub partial_hashed : ℕ
  pub full_hashed : ℕ
  pub bytes_read : ℕ
  pub phase : Phase
  pub groups_written : ℕ
  pub groups_total : ℕ
  pub eta_secs : ℤ
  pub has_last_scan : Bool
  pub last_finished_at : String
  pub last_groups : ℕ
  pub last_reclaimable : ℕ
  pub cron_expr : String
  pub next_run_at : String

abbrev pub minus : ℕ → ℕ → ℤ
minus a b = if leb b a then pos (a - b) else negsuc (b - a - 1)

abbrev pub negated : ℕ → ℤ
negated zero = pos 0
negated (suc n) = negsuc n

-- a * b / n, where Go's quotient drops what is behind the point. Times and groups are below 2 ^ 31, where the
-- product does not overflow.
abbrev pub scaled : ℤ → ℤ → ℕ → ℤ
scaled (pos a) (pos b) n = pos (a * b / n)
scaled (pos a) (negsuc b) n = negated (a * (b + 1) / n)
scaled (negsuc a) (pos b) n = negated ((a + 1) * b / n)
scaled (negsuc a) (negsuc b) n = pos ((a + 1) * (b + 1) / n)

-- ETASecs: the time that phase 2 has taken, for each group that is left; 0 before the first group.
unfoldable pub eta : ℕ → Progress → ℤ
eta now p =
    if ltb 0 p.phase2_started_at
    then (if ltb 0 p.groups_written
        then scaled (minus (unix now) p.phase2_started_at) (minus p.groups_total p.groups_written)
            p.groups_written
        else pos 0)
    else pos 0

-- int64(time.Since(start).Seconds()), of times in nanoseconds.
abbrev pub seconds_since : ℕ → ℕ → ℤ
seconds_since start now =
    if leb start now
    then pos ((now - start) / 1_000_000_000)
    else negated ((start - now) / 1_000_000_000)

-- `data := scanStatusData{}`.
abbrev pub blank_status : ScanStatusPage
blank_status = record {
  scan_running = false;
  scan_id = 0;
  started_at = "";
  triggered_by = none;
  elapsed_secs = pos 0;
  files_discovered = 0;
  candidates_found = 0;
  partial_hashed = 0;
  full_hashed = 0;
  bytes_read = 0;
  phase = idle;
  groups_written = 0;
  groups_total = 0;
  eta_secs = pos 0;
  has_last_scan = false;
  last_finished_at = "";
  last_groups = 0;
  last_reclaimable = 0;
  cron_expr = "";
  next_run_at = "";
}

module _ (clock_time date_time : ℕ → String) where
  abbrev pub with_active : ℕ → Progress → Option ActiveScan → ScanStatusPage → ScanStatusPage
  with_active now p none d = d
  with_active now p (some a) d = record d {
    scan_running = true;
    scan_id = a.id;
    started_at = clock_time (unix a.started_at);
    triggered_by = some a.triggered_by;
    elapsed_secs = seconds_since a.started_at now;
    files_discovered = p.files_discovered;
    candidates_found = p.candidates_found;
    partial_hashed = p.partial_hashed;
    full_hashed = p.full_hashed;
    bytes_read = p.bytes_read;
    phase = if ltb 0 p.phase2_started_at then writing else scanning;
    groups_written = p.groups_written;
    groups_total = p.groups_total;
    eta_secs = eta now p;
  }

  abbrev pub active_of : Option Manager → Option ActiveScan
  active_of none = none
  active_of (some m) = m.active

  -- The first row of the query. A finished_at that is NULL cannot be scanned.
  abbrev pub with_last : List ScanRow → ScanStatusPage → ScanStatusPage
  with_last [] d = d
  with_last (r ∷ rs) d = elim r.finished_at [
    | none ↦ d
    | some t ↦ record d {
      has_last_scan = true;
      last_finished_at = date_time t;
      last_groups = r.duplicate_groups;
      last_reclaimable = r.reclaimable_bytes;
    }
  ]

  abbrev pub next_text : Option ℕ → String
  next_text none = ""
  next_text (some t) = date_time t

  abbrev pub with_schedule :
      (cron : Cron) → Option (Scheduler cron) → ScanStatusPage → ScanStatusPage
  with_schedule cron none d = d
  with_schedule cron (some s) d = record d {
    cron_expr = s.cron_expr;
    next_run_at = next_text (next_run_at cron s);
  }

  -- scanStatusFragment: `latest` orders the rows, and `refused` says whether their query is refused.
  unfoldable pub scan_status_fragment :
      (List ScanRow → List ScanRow)
      → ℕ
      → Progress
      → Option Manager
      → (cron : Cron) → Option (Scheduler cron)
      → Bool
      → List ScanRow
      → ScanStatusPage
  scan_status_fragment latest now p m cron s refused rows =
      let d = with_active now p (active_of m) blank_status in
      let d' = if refused then d else with_last (latest (completed_rows rows)) d in
      with_schedule cron s d'

-- settingsPageData.
pub record SettingsPage : Type 0 where
  pub scan_paths : String
  pub exclude_paths : String
  pub schedule : String
  pub scan_paused : Bool
  pub trash_retention_days : ℤ
  pub walkers : ℤ
  pub partial_hashers : ℤ
  pub full_hashers : ℤ

-- settingsPage; `lines` joins texts with line feeds.
unfoldable pub settings_page : (List String → String) → Config → SettingsPage
settings_page lines c = record {
  scan_paths = lines c.scan_paths;
  exclude_paths = lines c.exclude_paths;
  schedule = c.schedule;
  scan_paused = c.scan_paused;
  trash_retention_days = c.trash_retention_days;
  walkers = c.scan_workers.walkers;
  partial_hashers = c.scan_workers.partial_hashers;
  full_hashers = c.scan_workers.full_hashers;
}
