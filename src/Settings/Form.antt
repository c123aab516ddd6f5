-- ===== src/Settings/Form.antt =====
-- The settings form (uiSettingsSave of internal/api/pages.go). strings.Split at line ends, TrimSpace and
-- Atoi are parameters; the job of the scheduler is what the form hands to it.
use ditto.Prelude.{
  ◌≡◌, List, [], ◌∷◌, Option, none, some, Bool, true, false, String, ℤ, in_range, at_least,
  if◌then◌else◌, ◌==◌, string_key, arith,
}
use ditto.Settings.Defs.{Codec}
use ditto.Settings.Patch.{
  ConfigHandler, apply, patch_scan_paths, patch_exclude_paths, patch_schedule, patch_scan_paused,
  set_retention, patch_walkers, patch_partial_hashers, patch_full_hashers, patch_workers,
  patch_first, patch_last,
}

-- The fields of the form, as they were sent; a box that is not ticked is the empty text.
pub record SettingsForm : Type 0 where
  pub scan_paths : String
  pub exclude_paths : String
  pub schedule : String
  pub scan_paused : String
  pub trash_retention_days : String
  pub walkers : String
  pub partial_hashers : String
  pub full_hashers : String

pub data Saved : Type 0 where
  bad_retention bad_walkers bad_partial_hashers bad_full_hashers bad_config : Saved
  -- saved, with the schedule that the scheduler is to take, if any
  saved : Option String → Saved

-- `out` is nil if no line is left.
abbrev pub slice : List String → Option (List String)
slice [] = none
slice (p ∷ ps) = some (p ∷ ps)

abbrev pub check : (ℤ → Bool) → Option ℤ → Option ℤ
check good none = none
check good (some n) = if good n then some n else none

abbrev pub is_saved : Saved → Bool
is_saved (saved s) = true
is_saved bad_retention = false
is_saved bad_walkers = false
is_saved bad_partial_hashers = false
is_saved bad_full_hashers = false
is_saved bad_config = false

module _ (k : Codec) (split_lines : String → List String) (trim_space : String → String) where
  abbrev pub keep_lines : List String → List String
  keep_lines [] = []
  keep_lines (l ∷ ls) = if trim_space l == "" then keep_lines ls else trim_space l ∷ keep_lines ls

  -- parsePaths.
  unfoldable pub parse_paths : String → Option (List String)
  parse_paths raw = slice (keep_lines (split_lines raw))

  unfoldable pub save : ConfigHandler → SettingsForm → ConfigHandler × Saved
  save h f =
      let schedule = trim_space f.schedule in
      elim (check (in_range 1 365) (k.atoi f.trash_retention_days)) [
        | none ↦ (h, bad_retention)
        | some retention ↦ elim (check (at_least 1) (k.atoi f.walkers)) [
          | none ↦ (h, bad_walkers)
          | some walkers ↦ elim (check (at_least 1) (k.atoi f.partial_hashers)) [
            | none ↦ (h, bad_partial_hashers)
            | some partial ↦ elim (check (at_least 1) (k.atoi f.full_hashers)) [
              | none ↦ (h, bad_full_hashers)
              | some full ↦
                  let (h', done) = apply k h (record {
                    scan_paths = parse_paths f.scan_paths;
                    exclude_paths = parse_paths f.exclude_paths;
                    schedule = some schedule;
                    scan_paused = some (f.scan_paused == "on");
                    trash_retention_days = some retention;
                    scan_workers = some (record {
                      walkers = some walkers;
                      partial_hashers = some partial;
                      full_hashers = some full;
                    });
                  }) in
                  if done
                  then (h', saved (if schedule == "" then none else some schedule))
                  else (h', bad_config)
            ]
          ]
        ]
      ]

  -- A form that is saved leaves a retention of 1 to 365 days, and at least one walker, one partial
  -- hasher and one full hasher.
  pub save-saved :
      (h : ConfigHandler) (f : SettingsForm) (s : Option String)
      → (save h f).1 ≡ saved s
      → (in_range 1 365 (save h f).0.cfg.trash_retention_days ≡ true)
        × (at_least 1 (save h f).0.cfg.scan_workers.walkers ≡ true)
        × (at_least 1 (save h f).0.cfg.scan_workers.partial_hashers ≡ true)
        × (at_least 1 (save h f).0.cfg.scan_workers.full_hashers ≡ true)
  unfolding save apply patch_first patch_last patch_workers patch_scan_paths patch_exclude_paths
      patch_scan_paused patch_schedule patch_walkers patch_partial_hashers patch_full_hashers
      set_retention
  save-saved h f s e = ground arith

  -- A form that is not saved changes nothing.
  pub save-refused :
      (h : ConfigHandler) (f : SettingsForm) → is_saved (save h f).1 ≡ false → (save h f).0 ≡ h
  unfolding save apply
  save-refused h f e = ground arith

  -- A form whose list of excluded paths is blank leaves the old ones excluded, saved or not.
  pub save-blank_paths :
      (h : ConfigHandler) (f : SettingsForm)
      → parse_paths f.exclude_paths ≡ none
      → (save h f).0.cfg.exclude_paths ≡ h.cfg.exclude_paths
  unfolding save apply patch_first patch_last patch_workers patch_scan_paths patch_exclude_paths
      patch_scan_paused patch_schedule patch_walkers patch_partial_hashers patch_full_hashers
      set_retention
  save-blank_paths h f blank = ground arith
