-- ===== src/Tests/Manager.antt =====
-- The scan Manager (internal/scan/manager.go) and the record of a scan (internal/scan/scan.go) on a
-- table with one stale row.
use ditto.Prelude.{pos, ℕ, ◌≡◌, refl, List, [], ◌∷◌, some, true, false}
use ditto.Scan.Types.{new_progress}
use ditto.Scan.Records.{schedule, manual, History, ExecFaults, new_row, mark_stale}
use ditto.Scan.Config.{ScanConfig}
use ditto.Scan.Manager.{
  Manager, ScanEnd, Event, starts, cancels, records, finishes, updates, new_manager, apply_all,
  running_ids, unrecorded_ids, running_ids-apply_all,
}

abbrev pub history : History
history = record { rows = new_row 1 3_000_000_000 schedule ∷ []; snapshots = []; last_id = 1 }

abbrev pub config : ScanConfig
config = record {
  walkers = pos 4;
  cache_checkers = pos 4;
  partial_hashers = pos 4;
  full_hashers = pos 2;
  batch_size = 1000;
  read_db = false;
}

abbrev no_faults : ExecFaults
no_faults = record {
  count_groups = false;
  finalise = false;
  count_deletions = false;
  snapshot = false;
}

abbrev end_at : ℕ → ScanEnd
end_at t = record {
  faults = no_faults;
  now = t;
  progress = new_progress;
  shut_down = false;
  failing = true;
  groups = [];
  deletions = [];
}

-- A scan that is cancelled, starts that are refused while it still runs and when it
-- has only to be given up, and another scan.
abbrev events : List Event
events =
    starts false 10_000_000_000 manual
    ∷ cancels
    ∷ starts false 11_000_000_000 manual
    ∷ records (end_at 12_000_000_000)
    ∷ starts false 12_500_000_000 manual
    ∷ finishes
    ∷ updates ("/photos" ∷ []) [] config
    ∷ starts false 13_000_000_000 schedule
    ∷ []

running_ids-apply_all_example :
    running_ids
      (apply_all
        (new_manager (record history { rows = mark_stale 9_000_000_000 history.rows }) [] [] config)
        events).history.rows
    ≡ unrecorded_ids (
        apply_all
          (new_manager
            (record history { rows = mark_stale 9_000_000_000 history.rows })
            []
            []
            config)
          events)
running_ids-apply_all_example = running_ids-apply_all history 9_000_000_000 [] [] config events refl

abbrev busy : Manager
busy = record (new_manager history [] [] config) {
  active = some (record { id = 1; started_at = 3_000_000_000; triggered_by = schedule });
}
