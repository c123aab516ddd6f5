-- ===== src/Settings/Patch.antt =====
-- ConfigHandler.Apply (internal/api/handlers/config.go) and SaveSetting (internal/db/db.go).
use ditto.Prelude.{
  List, Option, none, some, Bool, true, false, String, ℤ, pos, in_range, if◌then◌else◌, string_key,
  update,
}
use ditto.Scan.Config.{ScanConfig}
use ditto.Scan.Manager.{Manager, update_config}
use ditto.Settings.Defs.{Config, Codec, Table}

pub record WorkerPatch : Type 0 where
  pub walkers : Option ℤ
  pub partial_hashers : Option ℤ
  pub full_hashers : Option ℤ

-- A list that is `nil`, as a field that is left out, is `none`.
pub record ConfigPatch : Type 0 where
  pub scan_paths : Option (List String)
  pub exclude_paths : Option (List String)
  pub schedule : Option String
  pub scan_paused : Option Bool
  pub trash_retention_days : Option ℤ
  pub scan_workers : Option WorkerPatch

-- The handler: the configuration in memory, the table settings, and the scan manager if there is one.
pub record ConfigHandler : Type 0 where
  pub cfg : Config
  pub table : Table
  pub manager : Option Manager

-- INSERT OR REPLACE INTO settings.
abbrev pub save_setting : Table → String → String → Table
save_setting t key value = update t key (some value)

module _ (k : Codec) where
  -- One field of the patch each: into the configuration, and saved.
  unfoldable pub patch_scan_paths : ConfigHandler → Option (List String) → ConfigHandler
  patch_scan_paths h none = h
  patch_scan_paths h (some ps) =
      let c = h.cfg in
      record h {
        cfg = record c { scan_paths = ps };
        table = save_setting h.table "scan_paths" (k.marshal ps);
      }

  unfoldable pub patch_exclude_paths : ConfigHandler → Option (List String) → ConfigHandler
  patch_exclude_paths h none = h
  patch_exclude_paths h (some ps) =
      let c = h.cfg in
      record h {
        cfg = record c { exclude_paths = ps };
        table = save_setting h.table "exclude_paths" (k.marshal ps);
      }

  unfoldable pub patch_schedule : ConfigHandler → Option String → ConfigHandler
  patch_schedule h none = h
  patch_schedule h (some s) =
      let c = h.cfg in
      record h { cfg = record c { schedule = s }; table = save_setting h.table "schedule" s }

  unfoldable pub patch_scan_paused : ConfigHandler → Option Bool → ConfigHandler
  patch_scan_paused h none = h
  patch_scan_paused h (some b) =
      let c = h.cfg in
      record h {
        cfg = record c { scan_paused = b };
        table = save_setting h.table "scan_paused" (k.format_bool b);
      }

  unfoldable pub set_retention : ConfigHandler → ℤ → ConfigHandler
  set_retention h v =
      let c = h.cfg in
      record h {
        cfg = record c { trash_retention_days = v };
        table = save_setting h.table "trash_retention_days" (k.itoa v);
      }

  unfoldable pub patch_walkers : ConfigHandler → Option ℤ → ConfigHandler
  patch_walkers h none = h
  patch_walkers h (some n) =
      let c = h.cfg in
      let w = c.scan_workers in
      record h {
        cfg = record c { scan_workers = record w { walkers = n } };
        table = save_setting h.table "walkers" (k.itoa n);
      }

  unfoldable pub patch_partial_hashers : ConfigHandler → Option ℤ → ConfigHandler
  patch_partial_hashers h none = h
  patch_partial_hashers h (some n) =
      let c = h.cfg in
      let w = c.scan_workers in
      record h {
        cfg = record c { scan_workers = record w { partial_hashers = n } };
        table = save_setting h.table "partial_hashers" (k.itoa n);
      }

  unfoldable pub patch_full_hashers : ConfigHandler → Option ℤ → ConfigHandler
  patch_full_hashers h none = h
  patch_full_hashers h (some n) =
      let c = h.cfg in
      let w = c.scan_workers in
      record h {
        cfg = record c { scan_workers = record w { full_hashers = n } };
        table = save_setting h.table "full_hashers" (k.itoa n);
      }

  unfoldable pub patch_workers : ConfigHandler → Option WorkerPatch → ConfigHandler
  patch_workers h none = h
  patch_workers h (some p) =
      patch_full_hashers (patch_partial_hashers (patch_walkers h p.walkers) p.partial_hashers)
        p.full_hashers

  -- The configuration that goes to the scan manager: no CacheCheckers, no ReadDB.
  abbrev pub scan_config : Config → ScanConfig
  scan_config c = record {
    walkers = c.scan_workers.walkers;
    cache_checkers = pos 0;
    partial_hashers = c.scan_workers.partial_hashers;
    full_hashers = c.scan_workers.full_hashers;
    batch_size = 1000;
    read_db = false;
  }

  abbrev pub propagate : Config → Option Manager → Option Manager
  propagate c none = none
  propagate c (some m) = some (update_config m c.scan_paths c.exclude_paths (scan_config c))

  -- The fields before the retention, which are checked by nothing.
  unfoldable pub patch_first : ConfigHandler → ConfigPatch → ConfigHandler
  patch_first h p =
      patch_scan_paused
        (patch_schedule (patch_exclude_paths (patch_scan_paths h p.scan_paths) p.exclude_paths)
          p.schedule)
        p.scan_paused

  -- The workers, and the call of the manager.
  unfoldable pub patch_last : ConfigHandler → ConfigPatch → ConfigHandler
  patch_last h p =
      let h' = patch_workers h p.scan_workers in record h' { manager = propagate h'.cfg h'.manager }

  -- Apply: the handler after it, and whether it returned no error.
  unfoldable pub apply : ConfigHandler → ConfigPatch → ConfigHandler × Bool
  apply h p = elim p.trash_retention_days [
    | none ↦ (patch_last (patch_first h p) p, true)
    | some v ↦
        if in_range 1 365 v
        then (patch_last (set_retention (patch_first h p) v) p, true)
        else (patch_first h p, false)
  ]
