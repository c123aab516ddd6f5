-- ===== src/Scheduler.antt =====
-- internal/scheduler/scheduler.go, over the cron library, which is the interface `Cron`.
use ditto.Prelude.{
  ℕ, ◌≡◌, ◌≢◌, Option, none, some, Bool, true, false, String, arith, if◌then◌else◌, nat_beq,
  nat_beq_iff, Option-cases, inl, inr,
}

-- The jobs of a cron.Cron: AddFunc gives an id or refuses the expression, Entry gives the next time of a
-- job that is there. Ids begin at 1; a job is there once it is added and until it is removed.
pub record Cron : Type 1 where
  pub Jobs : Type 0
  pub add_func : Jobs → String → Option (ℕ × Jobs)
  pub remove : Jobs → ℕ → Jobs
  pub entry : Jobs → ℕ → Option ℕ
  pub entry-remove : (c : Jobs) (id : ℕ) → entry (remove c id) id ≡ none
  pub entry-add_func :
      (c : Jobs) (expr : String) (id : ℕ) (c' : Jobs)
      → add_func c expr ≡ some (id, c')
      → (id ≢ 0) × ((t : ℕ) × (entry c' id ≡ some t))

module _ (cron : Cron) where
  open cron use {Jobs, add_func, remove, entry, entry-remove, entry-add_func}

  pub record Scheduler : Type 0 where
    pub c : Jobs
    pub entry_id : ℕ
    pub cron_expr : String

  -- New, over the jobs of cron.New.
  abbrev pub new_scheduler : Jobs → Scheduler
  new_scheduler fresh = record { c = fresh; entry_id = 0; cron_expr = "" }

  -- SetJob: the scheduler after it, and whether it returned no error.
  unfoldable pub set_job : Scheduler → String → Scheduler × Bool
  set_job s expr =
      let c = if nat_beq s.entry_id 0 then s.c else remove s.c s.entry_id in
      elim (add_func c expr) [
        | none ↦ (record s { c = c }, false)
        | some (id, c') ↦ (record { c = c'; entry_id = id; cron_expr = expr }, true)
      ]

  -- AddJob: a job that is not tracked.
  unfoldable pub add_job : Scheduler → String → Scheduler × Bool
  add_job s expr = elim (add_func s.c expr) [
    | none ↦ (s, false)
    | some (id, c') ↦ (record s { c = c' }, true)
  ]

  unfoldable pub next_run_at : Scheduler → Option ℕ
  next_run_at s = if nat_beq s.entry_id 0 then none else entry s.c s.entry_id

  -- A job that is set is the one whose time is told.
  pub set_job-set :
      (s : Scheduler) (expr : String)
      → (set_job s expr).1 ≡ true
      → ((t : ℕ) × (next_run_at (set_job s expr).0 ≡ some t))
        × ((set_job s expr).0.cron_expr ≡ expr)
  unfolding set_job next_run_at
  set_job-set s expr h =
      let c = if nat_beq s.entry_id 0 then s.c else remove s.c s.entry_id in
      elim (Option-cases (add_func c expr)) [
        | inl e ↦ absurd (ground arith)
        | inr (r, e) ↦
            let (used, (t, at)) = entry-add_func c expr r.0 r.1 e in
            ((t, ground (arith, nat_beq_iff r.0 0)), ground arith)
      ]

  -- An expression that is refused takes the old job away: no run is due any more, although the old
  -- expression is still told.
  pub set_job-refused :
      (s : Scheduler) (expr : String)
      → (set_job s expr).1 ≡ false
      → (next_run_at (set_job s expr).0 ≡ none) × ((set_job s expr).0.cron_expr ≡ s.cron_expr)
  unfolding set_job next_run_at
  set_job-refused s expr h = ground (arith, entry-remove s.c s.entry_id, nat_beq_iff s.entry_id 0)
