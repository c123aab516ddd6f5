-- ===== src/Tests/Startup.antt =====
-- The start of the program (cmd/ditto/main.go) without a configuration file, after a scan that was left
-- running.
use ditto.Prelude.{
  ℕ, suc, ◌≡◌, ◌⊎◌, refl, Option, none, some, Bool, true, false, ◌||◌, String, ◌==◌, string_key,
  if◌then◌else◌, arith, Bool-cases, inl, inr, update, nat_key, nat_beq, ap, subst,
}
use ditto.Scan.Records.{mark_stale}
use ditto.Scan.Manager.{new_manager}
use ditto.Settings.Defs.{
  Config, ConfigFile, absent, load, apply_defaults, zero_config, merge_db_settings,
}
use ditto.Scheduler.{set_job, next_run_at, new_scheduler}
use ditto.Startup.{App, StartFaults, worker_config, set_jobs, start_up, parse_log_level}
use ditto.Startup.Ready.{start_up-set_jobs}
use ditto.Tests.Codec.{codec}
use ditto.Tests.Manager.{history}
use ditto.Tests.Settings.{job_table, JobTable, got, no_settings}

abbrev nothing_fails : StartFaults
nothing_fails = record {
  open_database = false;
  run_migrations = false;
  load_settings = false;
  mark_stale = false;
}

abbrev not_yaml : String → Option Config
not_yaml t = none

abbrev as_is : String → String
as_is s = s

abbrev no_jobs : JobTable
no_jobs = (0, λ id. none)

abbrev fresh : job_table.Jobs
unfolding job_table
fresh = no_jobs

abbrev cfg : Config
cfg = merge_db_settings codec (apply_defaults zero_config) no_settings

abbrev app : App job_table
app = record {
  cfg = cfg;
  log_level = parse_log_level as_is (apply_defaults zero_config).log_level;
  mgr =
      new_manager (record history { rows = mark_stale 9_000_000_000 history.rows }) cfg.scan_paths
        cfg.exclude_paths (worker_config cfg);
  trash_dir = cfg.trash_dir;
  sched = set_jobs job_table fresh cfg;
}

up :
    start_up job_table not_yaml codec as_is nothing_fails 9_000_000_000 absent no_settings history
      fresh
    ≡ some app
unfolding start_up load
up = refl

at_two : cfg.schedule ≡ "0 2 * * 0"
unfolding apply_defaults merge_db_settings
at_two = refl

no_file_is_no_error :
    start_up job_table not_yaml codec as_is nothing_fails 9_000_000_000 ConfigFile.unreadable
      no_settings history fresh
    ≡ none
unfolding start_up load
no_file_is_no_error = refl

-- A job stays when another is added.
kept_if :
    (refused : Bool) (c : JobTable) (i t : ℕ) (r : ℕ × JobTable)
    → c.1 i ≡ some t
    → (if refused then none else some (suc c.0, (suc c.0, update c.1 (suc c.0) (some 100))))
      ≡ some r
    → (t' : ℕ) × ((r.1).1 i ≡ some t')
kept_if true c i t r at e = absurd (cc)
kept_if false c i t r at e =
    subst (λ r'. (t' : ℕ) × ((r'.1).1 i ≡ some t')) (ap got e)
      (elim (Bool-cases (nat_beq (suc c.0) i)) [
        | inl new ↦ (100, ground arith)
        | inr old ↦ (t, ground arith)
      ])

kept :
    (js js' : job_table.Jobs) (e : String) (i i' t : ℕ)
    → job_table.entry js i ≡ some t
    → job_table.add_func js e ≡ some (i', js')
    → (t' : ℕ) × (job_table.entry js' i ≡ some t')
unfolding job_table
kept js js' e i i' t at added = kept_if (e == "") js i t (i', js') at added

start_up-set_jobs_example :
    ((cfg.scan_paused || (cfg.schedule == "") ≡ true) × (next_run_at job_table app.sched ≡ none))
    ⊎ ((cfg.scan_paused || (cfg.schedule == "") ≡ false)
        × (((set_job job_table (new_scheduler job_table fresh) cfg.schedule).1 ≡ false)
            ⊎ (((n : ℕ) × (next_run_at job_table app.sched ≡ some n))
                × (app.sched.cron_expr ≡ cfg.schedule))))
start_up-set_jobs_example =
    start_up-set_jobs job_table not_yaml codec as_is nothing_fails 9_000_000_000 absent no_settings
      history fresh app up kept
