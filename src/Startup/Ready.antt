-- ===== src/Startup/Ready.antt =====
-- What the program is like when it has started (cmd/ditto/main.go).
use ditto.Prelude.{
  ℕ, ◌≡◌, Option, none, some, true, false, ◌||◌, String, ◌==◌, string_key, arith, Option-cases,
  Bool-cases, inl, inr, ◌⊎◌, ◌∙◌,
}
use ditto.Scan.Records.{History}
use ditto.Scan.Manager.{new_manager}
use ditto.Settings.Defs.{Config, ConfigFile, Codec, Table, load}
use ditto.Scheduler.{Cron, Scheduler, new_scheduler, set_job, set_job-set, add_job, next_run_at}
use ditto.Startup.{App, StartFaults, worker_config, unstuck, set_jobs, start_up}

module _ (cron : Cron) where
  open cron use {Jobs, add_func, entry}

  set_jobs-paused :
      (fresh : Jobs) (c : Config)
      → c.scan_paused || (c.schedule == "") ≡ true
      → next_run_at cron (set_jobs cron fresh c) ≡ none
  unfolding set_jobs add_job next_run_at
  set_jobs-paused fresh c off = ground arith

  add_job-next :
      (s : Scheduler cron) (purge : String) (t : ℕ)
      → ((js js' : Jobs) (e : String) (i i' t : ℕ)
          → entry js i ≡ some t
          → add_func js e ≡ some (i', js')
          → (t' : ℕ) × (entry js' i ≡ some t'))
      → next_run_at cron s ≡ some t
      → ((t' : ℕ) × (next_run_at cron (add_job cron s purge).0 ≡ some t'))
        × ((add_job cron s purge).0.cron_expr ≡ s.cron_expr)
  unfolding add_job next_run_at
  add_job-next s purge t kept due = elim (Option-cases (add_func s.c purge)) [
    | inl refused ↦ ((t, ground arith), ground arith)
    | inr ((j, js), taken) ↦
        let at : entry s.c s.entry_id ≡ some t = ground arith in
        let (t', at') = kept s.c js purge s.entry_id j t at taken in
        ((t', ground arith), ground arith)
  ]

  set_jobs-set :
      (fresh : Jobs) (c : Config)
      → ((js js' : Jobs) (e : String) (i i' t : ℕ)
          → entry js i ≡ some t
          → add_func js e ≡ some (i', js')
          → (t' : ℕ) × (entry js' i ≡ some t'))
      → c.scan_paused || (c.schedule == "") ≡ false
      → (set_job cron (new_scheduler cron fresh) c.schedule).1 ≡ true
      → ((t : ℕ) × (next_run_at cron (set_jobs cron fresh c) ≡ some t))
        × ((set_jobs cron fresh c).cron_expr ≡ c.schedule)
  unfolding set_jobs
  set_jobs-set fresh c kept on taken =
      let s = (set_job cron (new_scheduler cron fresh) c.schedule).0 in
      let ((t, due), told) = set_job-set cron (new_scheduler cron fresh) c.schedule taken in
      let (next, same) = add_job-next s "0 3 * * *" t kept due in
      let e : set_jobs cron fresh c ≡ (add_job cron s "0 3 * * *").0 = ground arith in
      rw e (next, same ∙ told)

  module _ (decode : String → Option Config) (k : Codec) (lower : String → String) (χ : StartFaults)
      (now : ℕ) (file : ConfigFile) (t : Table) (h : History) (fresh : Jobs) (a : App cron) where
    start_up_shape :
        start_up cron decode k lower χ now file t h fresh ≡ some a
        → (a.mgr
            ≡ new_manager
                (unstuck χ now h)
                a.cfg.scan_paths
                a.cfg.exclude_paths
                (worker_config a.cfg))
          × (a.sched ≡ set_jobs cron fresh a.cfg)
    unfolding start_up
    start_up_shape up = elim (Option-cases (load decode file)) [
      | inl failed ↦ absurd (ground arith)
      | inr (c, loaded) ↦ elim (Bool-cases χ.open_database) [
        | inl refused ↦ absurd (ground arith)
        | inr opened ↦ elim (Bool-cases χ.run_migrations) [
          | inl refused ↦ absurd (ground arith)
          | inr migrated ↦ (ground arith, ground arith)
        ]
      ]
    ]

    -- If the scans are paused, or have no schedule, in the configuration that the settings of the database
    -- leave, no scan is due; else one is due, and its expression is told, provided that the cron library takes the
    -- expression and keeps a job when another is added.
    pub start_up-set_jobs :
        start_up cron decode k lower χ now file t h fresh ≡ some a
        → ((js js' : Jobs) (e : String) (i i' t : ℕ)
            → entry js i ≡ some t
            → add_func js e ≡ some (i', js')
            → (t' : ℕ) × (entry js' i ≡ some t'))
        → ((a.cfg.scan_paused || (a.cfg.schedule == "") ≡ true) × (next_run_at cron a.sched ≡ none))
          ⊎ ((a.cfg.scan_paused || (a.cfg.schedule == "") ≡ false)
              × (((set_job cron (new_scheduler cron fresh) a.cfg.schedule).1 ≡ false)
                  ⊎ (((n : ℕ) × (next_run_at cron a.sched ≡ some n))
                      × (a.sched.cron_expr ≡ a.cfg.schedule))))
    start_up-set_jobs up kept =
        let same : a.sched ≡ set_jobs cron fresh a.cfg = (start_up_shape up).1 in
        elim (Bool-cases (a.cfg.scan_paused || (a.cfg.schedule == ""))) [
          | inl off ↦ inl (off, rw same (set_jobs-paused fresh a.cfg off))
          | inr on ↦ inr (
            on,
            elim (Bool-cases (set_job cron (new_scheduler cron fresh) a.cfg.schedule).1) [
              | inl taken ↦ inr (rw same (set_jobs-set fresh a.cfg kept on taken))
              | inr refused ↦ inl refused
            ],
          )
        ]
