-- ===== src/Tests/Settings.antt =====
-- The settings (internal/config/config.go, internal/api/handlers/config.go, internal/api/pages.go) and the
-- scheduler (internal/scheduler/scheduler.go) with a few changes.
use ditto.Prelude.{
  ℕ, suc, ◌≡◌, ◌≢◌, refl, List, [], ◌∷◌, Option, none, some, Bool, true, false, String, pos,
  in_range, if◌then◌else◌, ◌==◌, string_key, nat_key, nat_beq_iff, update, arith, ap, subst,
}
use ditto.Settings.Defs.{Config, Table, zero_config, merge_db_settings}
use ditto.Settings.Patch.{
  ConfigPatch, ConfigHandler, apply, patch_first, patch_last, patch_workers, patch_scan_paths,
  patch_exclude_paths, patch_scan_paused, patch_schedule, patch_walkers, patch_partial_hashers,
  patch_full_hashers, set_retention,
}
use ditto.Settings.Synced.{apply_all, restart-apply_all, apply-retention}
use ditto.Settings.Form.{SettingsForm, saved, is_saved, parse_paths, save, save-refused}
use ditto.Scheduler.{Cron, Scheduler, set_job, next_run_at, set_job-set}
use ditto.Tests.Codec.{codec}

abbrev pub base : Config
base = record zero_config { schedule = "0 2 * * 0"; trash_retention_days = pos 30 }

abbrev no_patch : ConfigPatch
no_patch = record {
  scan_paths = none;
  exclude_paths = none;
  schedule = none;
  scan_paused = none;
  trash_retention_days = none;
  scan_workers = none;
}

abbrev paths : List String
paths = "/photos" ∷ "/music" ∷ []

-- Two patches: the second is refused after its paths are taken.
abbrev patches : List ConfigPatch
patches =
    record no_patch {
      schedule = some "0 4 * * *";
      scan_workers =
          some (record { walkers = some (pos 8); partial_hashers = none; full_hashers = none });
    }
    ∷ record no_patch { scan_paths = some paths; trash_retention_days = some (pos 400) }
    ∷ []

abbrev pub no_settings : Table
no_settings key = none

abbrev pub handler : ConfigHandler
handler = record { cfg = base; table = no_settings; manager = none }

restart-apply_all_example :
    merge_db_settings codec base
      (apply_all codec
        (record {
          cfg = merge_db_settings codec base no_settings;
          table = no_settings;
          manager = none;
        })
        patches).table
    ≡ (apply_all codec
        (record {
          cfg = merge_db_settings codec base no_settings;
          table = no_settings;
          manager = none;
        })
        patches).cfg
restart-apply_all_example = restart-apply_all codec base no_settings none patches refl

abbrev blanked : ConfigPatch
blanked = record no_patch { schedule = some "" }

apply-retention_example :
    in_range 1 365
      (apply codec handler
        (record no_patch { trash_retention_days = some (pos 90) })).0.cfg.trash_retention_days
    ≡ true
apply-retention_example =
    apply-retention codec handler (record no_patch { trash_retention_days = some (pos 90) }) refl

abbrev half_taken : ConfigPatch
half_taken = record no_patch { scan_paths = some paths; trash_retention_days = some (pos 400) }

-- Lines are not split, and nothing is trimmed.
abbrev lines : String → List String
lines s = s ∷ []

abbrev trim : String → String
trim s = s

abbrev form : SettingsForm
form = record {
  scan_paths = "/photos";
  exclude_paths = "";
  schedule = "0 4 * * *";
  scan_paused = "";
  trash_retention_days = "+111";
  walkers = "+11";
  partial_hashers = "+11";
  full_hashers = "+1";
}

form_saved : (save codec lines trim handler form).1 ≡ saved (some "0 4 * * *")
unfolding save apply patch_first patch_last patch_workers patch_scan_paths patch_exclude_paths
    patch_scan_paused patch_schedule patch_walkers patch_partial_hashers patch_full_hashers
    set_retention parse_paths
form_saved = refl

abbrev bad_form : SettingsForm
bad_form = record form { trash_retention_days = "-1" }

form_refused : is_saved (save codec lines trim handler bad_form).1 ≡ false
unfolding save
form_refused = refl

save-refused_example : (save codec lines trim handler bad_form).0 ≡ handler
save-refused_example = save-refused codec lines trim handler bad_form form_refused

no_line : parse_paths codec lines trim form.exclude_paths ≡ none
unfolding parse_paths
no_line = refl

-- Jobs by id, with the next id; every job is due at 100, and the empty expression is refused.
abbrev pub JobTable : Type 0
JobTable = ℕ × (ℕ → Option ℕ)

abbrev pub add_entry : JobTable → String → Option (ℕ × JobTable)
add_entry (n, jobs) expr =
    if expr == "" then none else some (suc n, (suc n, update jobs (suc n) (some 100)))

pub entry-removed : (c : JobTable) (id : ℕ) → update c.1 id none id ≡ none
entry-removed c id = ground (arith, nat_beq_iff id id)

abbrev pub got : Option (ℕ × JobTable) → ℕ × JobTable
got none = (0, (0, λ id. none))
got (some r) = r

new_entry : (n : ℕ) (jobs : ℕ → Option ℕ) → update jobs (suc n) (some 100) (suc n) ≡ some 100
new_entry n jobs = ground (arith, nat_beq_iff (suc n) (suc n))

entry-added_if :
    (refused : Bool) (c : JobTable) (r : ℕ × JobTable)
    → (if refused then none else some (suc c.0, (suc c.0, update c.1 (suc c.0) (some 100))))
      ≡ some r
    → (r.0 ≢ 0) × ((t : ℕ) × ((r.1).1 r.0 ≡ some t))
entry-added_if true c r e = absurd (cc)
entry-added_if false c r e =
    subst (λ r'. (r'.0 ≢ 0) × ((t : ℕ) × ((r'.1).1 r'.0 ≡ some t))) (ap got e)
      ((λ z. absurd (omega arith)), (100, new_entry c.0 c.1))

pub entry-added :
    (c : JobTable) (expr : String) (id : ℕ) (c' : JobTable)
    → add_entry c expr ≡ some (id, c')
    → (id ≢ 0) × ((t : ℕ) × (c'.1 id ≡ some t))
entry-added c expr id c' e = entry-added_if (expr == "") c (id, c') e

unfoldable pub job_table : Cron
job_table = record {
  Jobs = JobTable;
  add_func = add_entry;
  remove = λ c id. (c.0, update c.1 id none);
  entry = λ c id. c.1 id;
  entry-remove = entry-removed;
  entry-add_func = entry-added;
}

abbrev pub idle_scheduler : Scheduler job_table
unfolding job_table
idle_scheduler = record { c = (0, λ id. none); entry_id = 0; cron_expr = "" }

abbrev nightly : Scheduler job_table
unfolding job_table set_job
nightly = (set_job job_table idle_scheduler "0 2 * * *").0

job_taken : (set_job job_table idle_scheduler "0 2 * * *").1 ≡ true
unfolding job_table set_job
job_taken = refl

set_job-set_example :
    ((t : ℕ) × (next_run_at job_table (set_job job_table idle_scheduler "0 2 * * *").0 ≡ some t))
    × ((set_job job_table idle_scheduler "0 2 * * *").0.cron_expr ≡ "0 2 * * *")
set_job-set_example = set_job-set job_table idle_scheduler "0 2 * * *" job_taken

job_refused : (set_job job_table nightly "").1 ≡ false
unfolding job_table set_job
job_refused = refl
