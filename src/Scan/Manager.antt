-- ===== src/Scan/Manager.antt =====
-- The scan Manager (internal/scan/manager.go): one scan at a time. Every method holds the mutex, and so
-- does the last step of the goroutine that Start launches: the model takes them as events in sequence.
-- The goroutine writes the final record of its scan before that, without the mutex: an event of its own.
use ditto.Prelude.{
  ℕ, ◌+◌, ◌≡◌, refl, List, [], ◌∷◌, ◌++◌, ◌-◌, ◌/◌, Option, none, some, Bool, true, false, not,
  ◌&&◌, ◌||◌, String, arith, if◌then◌else◌, nat_beq, nat_beq_iff, Option-cases, inl, inr,
}
use ditto.Scan.Config.{ScanConfig}
use ditto.Scan.Types.{Progress, unix}
use ditto.Tables.{DuplicateGroup}
use ditto.Trash.Manager.{Deletion}
use ditto.Scan.Records.{
  ScanTrigger, ScanRow, History, ExecFaults, running, completed, failed, cancelled,
  insert_scan_record, finalise_scan_record, insert_scan_snapshot, execute, final_status, is_running,
  mark_stale, update_row, finalised, new_row, group_totals,
}

pub record ActiveScan : Type 0 where
  pub id : ℕ
  pub started_at : ℕ
  pub triggered_by : ScanTrigger

-- What a running scan works with.
pub record Scanner : Type 0 where
  pub roots : List String
  pub exclude_paths : List String
  pub cfg : ScanConfig

-- The Manager, with the scanner of the active scan, whether its context is cancelled, whether its
-- goroutine has returned from runScan, which writes the final record, and the tables.
pub record Manager : Type 0 where
  pub roots : List String
  pub excludes : List String
  pub cfg : ScanConfig
  pub active : Option ActiveScan
  pub scanner : Option Scanner
  pub is_cancelled : Bool
  pub is_recorded : Bool
  pub history : History

-- NewManager.
abbrev pub new_manager : History → List String → List String → ScanConfig → Manager
new_manager h roots excludes cfg = record {
  roots = roots;
  excludes = excludes;
  cfg = cfg;
  active = none;
  scanner = none;
  is_cancelled = false;
  is_recorded = false;
  history = h;
}

unfoldable pub update_config : Manager → List String → List String → ScanConfig → Manager
update_config m roots excludes cfg = record m { roots = roots; excludes = excludes; cfg = cfg }

pub data StartResult : Type 0 where
  started : ActiveScan → StartResult
  already_running record_failed : StartResult

-- Start at the time `now`; `refused` says whether the database refuses the record.
unfoldable pub start : Manager → Bool → ℕ → ScanTrigger → Manager × StartResult
start m refused now trigger = elim m.active [
  | some a ↦ (m, already_running)
  | none ↦
      let (h, k) = insert_scan_record m.history now trigger in
      let a : ActiveScan = record { id = k; started_at = now; triggered_by = trigger } in
      if refused then (m, record_failed) else (
        record m {
          active = some a;
          scanner = some (record { roots = m.roots; exclude_paths = m.excludes; cfg = m.cfg });
          is_cancelled = false;
          is_recorded = false;
          history = h;
        },
        started a,
      )
]

-- Cancel: the scan, or `none` if there is none.
unfoldable pub cancel : Manager → Manager × Option ActiveScan
cancel m = elim m.active [ none ↦ (m, none) | some a ↦ (record m { is_cancelled = true }, some a) ]

-- The end of a scan: what its pipeline left, and whether the server's context is done.
pub record ScanEnd : Type 0 where
  pub faults : ExecFaults
  pub now : ℕ
  pub progress : Progress
  pub shut_down : Bool
  pub failing : Bool
  pub groups : List DuplicateGroup
  pub deletions : List Deletion

-- The end of runScan, in the goroutine that Start launches: the final record, while the scan is active.
unfoldable pub record_end : Manager → ScanEnd → Manager
record_end m e = elim m.active [
  | none ↦ m
  | some a ↦ if m.is_recorded then m else record m {
    is_recorded = true;
    history =
        execute e.faults m.history a.id a.started_at e.now e.progress
          (e.shut_down || m.is_cancelled) e.failing e.groups e.deletions;
  }
]

-- What the goroutine does after that, under the mutex.
unfoldable pub finish : Manager → Manager
finish m = elim m.active [
  | none ↦ m
  | some a ↦
      if m.is_recorded
      then record m { active = none; scanner = none; is_cancelled = false; is_recorded = false }
      else m
]

pub data Event : Type 0 where
  updates : List String → List String → ScanConfig → Event
  starts : Bool → ℕ → ScanTrigger → Event
  cancels : Event
  records : ScanEnd → Event
  finishes : Event

unfoldable pub apply : Manager → Event → Manager
apply m (updates roots excludes cfg) = update_config m roots excludes cfg
apply m (starts refused now trigger) = (start m refused now trigger).0
apply m cancels = (cancel m).0
apply m (records e) = record_end m e
apply m finishes = finish m

unfoldable pub apply_all : Manager → List Event → Manager
apply_all m [] = m
apply_all m (e ∷ es) = apply_all (apply m e) es

-- The ids of the rows that are running.
abbrev pub running_ids : List ScanRow → List ℕ
running_ids [] = []
running_ids (r ∷ rs) = if is_running r then r.id ∷ running_ids rs else running_ids rs

abbrev pub active_ids : Option ActiveScan → List ℕ
active_ids none = []
active_ids (some a) = a.id ∷ []

-- The active scan, if its final record is not written.
abbrev pub unrecorded_ids : Manager → List ℕ
unrecorded_ids m = if m.is_recorded then [] else active_ids m.active

-- The database takes the final record of every scan.
abbrev pub saves : Event → Bool
saves (updates roots excludes cfg) = true
saves (starts refused now trigger) = true
saves cancels = true
saves (records e) = not e.faults.finalise
saves finishes = true

abbrev pub all_save : List Event → Bool
all_save [] = true
all_save (e ∷ es) = saves e && all_save es

abbrev IsConsistent : Manager → Type 0
IsConsistent m = running_ids m.history.rows ≡ unrecorded_ids m

abbrev drop_id : ℕ → List ℕ → List ℕ
drop_id k [] = []
drop_id k (j ∷ js) = if nat_beq j k then drop_id k js else j ∷ drop_id k js

running_ids-append :
    (rs : List ScanRow) (r : ScanRow)
    → is_running r ≡ true
    → running_ids (rs ++ r ∷ []) ≡ running_ids rs ++ r.id ∷ []
running_ids-append [] r h = ground arith
running_ids-append (x ∷ xs) r h = ground (arith, running_ids-append xs r h)

running_ids-update :
    (k : ℕ) (f : ScanRow → ScanRow) (rs : List ScanRow)
    → ((r : ScanRow) → is_running (f r) ≡ false)
    → running_ids (update_row k f rs) ≡ drop_id k (running_ids rs)
running_ids-update k f [] h = refl
running_ids-update k f (r ∷ rs) h = ground (arith, h r, running_ids-update k f rs h)

pub running_ids-mark_stale : (now : ℕ) (rs : List ScanRow) → running_ids (mark_stale now rs) ≡ []
unfolding mark_stale
running_ids-mark_stale now [] = refl
running_ids-mark_stale now (r ∷ rs) = ground (arith, running_ids-mark_stale now rs)

ended :
    (done failing : Bool)
    → elim (final_status done failing) [
      | running ↦ true
      | completed ↦ false
      | failed ↦ false
      | cancelled ↦ false
    ]
      ≡ false
unfolding final_status
ended done failing = ground arith

running_ids-execute :
    (m : Manager) (k began : ℕ) (done : Bool) (e : ScanEnd)
    → e.faults.finalise ≡ false
    → running_ids
        (execute e.faults m.history k began e.now e.progress done e.failing e.groups
          e.deletions).rows
      ≡ drop_id k (running_ids m.history.rows)
unfolding execute finalise_scan_record insert_scan_snapshot final_status
running_ids-execute m k began done e ok =
    let row =
      finalised (final_status done e.failing) (unix e.now) ((e.now - began) / 1_000_000_000)
        e.progress (group_totals e.faults.count_groups k e.groups) in
    ground (arith, running_ids-update k row m.history.rows (λ r. ended done e.failing))

apply-IsConsistent :
    (m : Manager) (e : Event) → saves e ≡ true → IsConsistent m → IsConsistent (apply m e)
unfolding apply start cancel record_end finish update_config insert_scan_record
apply-IsConsistent m (updates roots excludes cfg) ok h = h
apply-IsConsistent m (starts refused now trigger) ok h =
    let row = new_row (m.history.last_id + 1) now trigger in
    ground (arith, running_ids-append m.history.rows row refl)
apply-IsConsistent m cancels ok h = ground arith
apply-IsConsistent m (records e) ok h = elim (Option-cases m.active) [
  | inl idle ↦ ground arith
  | inr (a, busy) ↦ ground (
    arith,
    nat_beq_iff a.id a.id,
    running_ids-execute m a.id a.started_at (e.shut_down || m.is_cancelled) e (ground arith),
  )
]
apply-IsConsistent m finishes ok h = ground arith

apply_all-IsConsistent :
    (m : Manager) (es : List Event)
    → all_save es ≡ true
    → IsConsistent m
    → IsConsistent (apply_all m es)
unfolding apply_all
apply_all-IsConsistent m [] ok h = h
apply_all-IsConsistent m (e ∷ es) ok h =
    apply_all-IsConsistent (apply m e) es (ground arith) (apply-IsConsistent m e (ground arith) h)

-- From a start of the server on any table, whose running scans are marked as failed, and through any
-- sequence of updates, starts, cancellations, final records and ends of goroutines, if the database
-- takes the final record of every scan: the running rows of scan_history are exactly the active scan, as
-- long as its final record is not written, and there are none from then until the next scan is started.
pub running_ids-apply_all :
    (h : History) (now : ℕ) (roots excludes : List String) (cfg : ScanConfig) (es : List Event)
    → all_save es ≡ true
    → running_ids
        (apply_all
          (new_manager (record h { rows = mark_stale now h.rows }) roots excludes cfg)
          es).history.rows
      ≡ unrecorded_ids (
          apply_all (new_manager (record h { rows = mark_stale now h.rows }) roots excludes cfg) es)
running_ids-apply_all h now roots excludes cfg es ok =
    apply_all-IsConsistent _ es ok (running_ids-mark_stale now h.rows)
