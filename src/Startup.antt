-- ===== src/Startup.antt =====
-- The start of the program (cmd/ditto/main.go). The database file and its migrations are outside; that they
-- are refused is in StartFaults. strings.ToLower is a parameter.
use ditto.Prelude.{
  ℕ, List, Option, none, some, Bool, true, false, not, ◌&&◌, String, ◌==◌, string_key,
  if◌then◌else◌,
}
use ditto.Scan.Config.{ScanConfig}
use ditto.Scan.Records.{History, schedule, mark_stale}
use ditto.Scan.Manager.{Manager, new_manager, start}
use ditto.Settings.Defs.{Config, ConfigFile, Codec, Table, load, merge_db_settings}
use ditto.Scheduler.{Cron, Scheduler, new_scheduler, set_job, add_job}
pub mod Ready

-- What fails at the start. Without the pool of read-only connections the database itself is read.
pub record StartFaults : Type 0 where
  pub open_database : Bool
  pub run_migrations : Bool
  pub load_settings : Bool
  pub mark_stale : Bool

pub data Level : Type 0 where
  debug info warn error : Level

-- parseLogLevel.
unfoldable pub parse_log_level : (String → String) → String → Level
parse_log_level lower s =
    let l = lower s in
    if l == "debug"
    then debug
    else if l == "warn"
    then warn
    else if l == "error"
    then error
    else info

-- What main hands to the server.
pub record App (cron : Cron) : Type 0 where
  pub cfg : Config
  pub log_level : Level
  pub mgr : Manager
  pub trash_dir : String
  pub sched : Scheduler cron

-- The literal of scan.Config; the reader is the pool or the database.
abbrev pub worker_config : Config → ScanConfig
worker_config c = record {
  walkers = c.scan_workers.walkers;
  cache_checkers = c.scan_workers.cache_checkers;
  partial_hashers = c.scan_workers.partial_hashers;
  full_hashers = c.scan_workers.full_hashers;
  batch_size = 1000;
  read_db = true;
}

abbrev pub merged : Codec → StartFaults → Config → Table → Config
merged k χ c t = if χ.load_settings then c else merge_db_settings k c t

abbrev pub unstuck : StartFaults → ℕ → History → History
unstuck χ now h = if χ.mark_stale then h else record h { rows = mark_stale now h.rows }

module _ (cron : Cron) where
  open cron use {Jobs}

  -- The jobs: a scan, unless it is paused or has no schedule, and the purge. An expression that is refused
  -- is logged.
  unfoldable pub set_jobs : Jobs → Config → Scheduler cron
  set_jobs fresh c =
      let s = new_scheduler cron fresh in
      let s' =
        if not c.scan_paused && not (c.schedule == "") then (set_job cron s c.schedule).0 else s in
      (add_job cron s' "0 3 * * *").0

  -- main, up to the server; `none` is the exit with 1.
  unfoldable pub start_up :
      (String → Option Config)
      → Codec
      → (String → String)
      → StartFaults
      → ℕ
      → ConfigFile
      → Table
      → History
      → Jobs
      → Option (App cron)
  start_up decode k lower χ now file t h fresh = elim (load decode file) [
    | none ↦ none
    | some c ↦
        let cfg = merged k χ c t in
        if χ.open_database
        then none
        else if χ.run_migrations
        then none
        else some (record {
          cfg = cfg;
          log_level = parse_log_level lower c.log_level;
          mgr = new_manager (unstuck χ now h) cfg.scan_paths cfg.exclude_paths (worker_config cfg);
          trash_dir = cfg.trash_dir;
          sched = set_jobs fresh cfg;
        })
  ]

  -- The callback of the schedule; what Start returns is logged.
  unfoldable pub run_scheduled : App cron → Bool → ℕ → App cron
  run_scheduled a refused now = record a { mgr = (start a.mgr refused now schedule).0 }
