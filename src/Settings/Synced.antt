-- ===== src/Settings/Synced.antt =====
-- The configuration in memory and the settings saved agree (internal/api/handlers/config.go and
-- MergeDBSettings of internal/config/config.go).
use ditto.Prelude.{
  ◌∷◌, ◌≡◌, refl, ap, List, [], Option, none, some, Bool, true, false, String, ℤ, in_range, ◌==◌,
  string_key, arith, not, ◌&&◌, Bool-cases, Option-cases, inl, inr,
}
use ditto.Scan.Manager.{Manager}
use ditto.Settings.Defs.{Config, Codec, Table, merge_db_settings}
use ditto.Settings.Patch.{
  ConfigPatch, WorkerPatch, ConfigHandler, patch_scan_paths, patch_exclude_paths, patch_schedule,
  patch_scan_paused, set_retention, patch_walkers, patch_partial_hashers, patch_full_hashers,
  patch_workers, patch_first, patch_last, apply,
}

-- A restart with the file's configuration `base` gives the configuration in memory.
abbrev pub IsSynced : Codec → Config → ConfigHandler → Type 0
IsSynced k base h = merge_db_settings k base h.table ≡ h.cfg

abbrev pub is_blank : Option String → Bool
is_blank none = false
is_blank (some s) = s == ""

module _ (k : Codec) (base : Config) where
  patch_scan_paths-IsSynced :
      (h : ConfigHandler) (o : Option (List String))
      → IsSynced k base h
      → IsSynced k base (patch_scan_paths k h o)
  unfolding patch_scan_paths merge_db_settings
  patch_scan_paths-IsSynced h none s = s
  patch_scan_paths-IsSynced h (some ps) s =
      rw (k.marshal-ne-empty ps, k.unmarshal-marshal ps)
        (ap (λ (c : Config). record c { scan_paths = ps }) s)

  patch_exclude_paths-IsSynced :
      (h : ConfigHandler) (o : Option (List String))
      → IsSynced k base h
      → IsSynced k base (patch_exclude_paths k h o)
  unfolding patch_exclude_paths merge_db_settings
  patch_exclude_paths-IsSynced h none s = s
  patch_exclude_paths-IsSynced h (some ps) s =
      rw (k.marshal-ne-empty ps, k.unmarshal-marshal ps)
        (ap (λ (c : Config). record c { exclude_paths = ps }) s)

  patch_scan_paused-IsSynced :
      (h : ConfigHandler) (o : Option Bool)
      → IsSynced k base h
      → IsSynced k base (patch_scan_paused k h o)
  unfolding patch_scan_paused merge_db_settings
  patch_scan_paused-IsSynced h none s = s
  patch_scan_paused-IsSynced h (some b) s =
      rw (k.format_bool-ne-empty b, k.parse_bool-format_bool b)
        (ap (λ (c : Config). record c { scan_paused = b }) s)

  patch_walkers-IsSynced :
      (h : ConfigHandler) (o : Option ℤ) → IsSynced k base h → IsSynced k base (patch_walkers k h o)
  unfolding patch_walkers merge_db_settings
  patch_walkers-IsSynced h none s = s
  patch_walkers-IsSynced h (some n) s =
      rw (k.itoa-ne-empty n, k.atoi-itoa n)
        (ap
          (λ (c : Config).
            let w = c.scan_workers in record c { scan_workers = record w { walkers = n } })
          s)

  patch_partial_hashers-IsSynced :
      (h : ConfigHandler) (o : Option ℤ)
      → IsSynced k base h
      → IsSynced k base (patch_partial_hashers k h o)
  unfolding patch_partial_hashers merge_db_settings
  patch_partial_hashers-IsSynced h none s = s
  patch_partial_hashers-IsSynced h (some n) s =
      rw (k.itoa-ne-empty n, k.atoi-itoa n)
        (ap
          (λ (c : Config).
            let w = c.scan_workers in record c { scan_workers = record w { partial_hashers = n } })
          s)

  patch_full_hashers-IsSynced :
      (h : ConfigHandler) (o : Option ℤ)
      → IsSynced k base h
      → IsSynced k base (patch_full_hashers k h o)
  unfolding patch_full_hashers merge_db_settings
  patch_full_hashers-IsSynced h none s = s
  patch_full_hashers-IsSynced h (some n) s =
      rw (k.itoa-ne-empty n, k.atoi-itoa n)
        (ap
          (λ (c : Config).
            let w = c.scan_workers in record c { scan_workers = record w { full_hashers = n } })
          s)

  set_retention-IsSynced :
      (h : ConfigHandler) (v : ℤ) → IsSynced k base h → IsSynced k base (set_retention k h v)
  unfolding set_retention merge_db_settings
  set_retention-IsSynced h v s =
      rw (k.itoa-ne-empty v, k.atoi-itoa v)
        (ap (λ (c : Config). record c { trash_retention_days = v }) s)

  patch_schedule-IsSynced :
      (h : ConfigHandler) (o : Option String)
      → is_blank o ≡ false
      → IsSynced k base h
      → IsSynced k base (patch_schedule k h o)
  unfolding patch_schedule merge_db_settings
  patch_schedule-IsSynced h none shown s = s
  patch_schedule-IsSynced h (some e) shown s =
      rw shown (ap (λ (c : Config). record c { schedule = e }) s)

  patch_workers-IsSynced :
      (h : ConfigHandler) (o : Option WorkerPatch)
      → IsSynced k base h
      → IsSynced k base (patch_workers k h o)
  unfolding patch_workers
  patch_workers-IsSynced h none s = s
  patch_workers-IsSynced h (some p) s =
      patch_full_hashers-IsSynced _ p.full_hashers
        (patch_partial_hashers-IsSynced _ p.partial_hashers (patch_walkers-IsSynced h p.walkers s))

  patch_first-IsSynced :
      (h : ConfigHandler) (p : ConfigPatch)
      → is_blank p.schedule ≡ false
      → IsSynced k base h
      → IsSynced k base (patch_first k h p)
  unfolding patch_first
  patch_first-IsSynced h p shown s = patch_scan_paused-IsSynced _ p.scan_paused (
      patch_schedule-IsSynced _ p.schedule shown (
        patch_exclude_paths-IsSynced _ p.exclude_paths
          (patch_scan_paths-IsSynced h p.scan_paths s)))

  patch_last-IsSynced :
      (h : ConfigHandler) (p : ConfigPatch) → IsSynced k base h → IsSynced k base (patch_last k h p)
  unfolding patch_last
  patch_last-IsSynced h p s = patch_workers-IsSynced h p.scan_workers s

  apply-IsSynced :
      (h : ConfigHandler) (p : ConfigPatch)
      → is_blank p.schedule ≡ false
      → IsSynced k base h
      → IsSynced k base (apply k h p).0
  unfolding apply
  apply-IsSynced h p shown s =
      let first = patch_first-IsSynced h p shown s in
      elim (Option-cases p.trash_retention_days) [
        | inl e ↦
            let whole : apply k h p ≡ (patch_last k (patch_first k h p) p, true) = ground arith in
            rw whole (patch_last-IsSynced (patch_first k h p) p first)
        | inr (v, e) ↦ elim (Bool-cases (in_range 1 365 v)) [
          | inl good ↦
              let whole : apply k h p
                  ≡ (patch_last k (set_retention k (patch_first k h p) v) p, true) =
                ground arith in
              rw whole (patch_last-IsSynced _ p (set_retention-IsSynced _ v first))
          | inr bad ↦
              let whole : apply k h p ≡ (patch_first k h p, false) = ground arith in rw whole first
        ]
      ]

-- The patches of a run of the server, one after the other; those that are refused too.
unfoldable pub apply_all : Codec → ConfigHandler → List ConfigPatch → ConfigHandler
apply_all k h [] = h
apply_all k h (p ∷ ps) = apply_all k (apply k h p).0 ps

abbrev pub none_blank : List ConfigPatch → Bool
none_blank [] = true
none_blank (p ∷ ps) = not (is_blank p.schedule) && none_blank ps

apply_all-IsSynced :
    (k : Codec) (base : Config) (h : ConfigHandler) (ps : List ConfigPatch)
    → none_blank ps ≡ true
    → IsSynced k base h
    → IsSynced k base (apply_all k h ps)
unfolding apply_all
apply_all-IsSynced k base h [] shown s = s
apply_all-IsSynced k base h (p ∷ ps) shown s =
    apply_all-IsSynced k base (apply k h p).0 ps (ground arith)
      (apply-IsSynced k base h p (ground arith) s)

-- A restart after any sequence of patches, refused ones among them, none of which blanks the schedule,
-- gives the configuration that was in memory, if the database saves the settings.
pub restart-apply_all :
    (k : Codec) (base : Config) (t : Table) (m : Option Manager) (ps : List ConfigPatch)
    → none_blank ps ≡ true
    → merge_db_settings k base
        (apply_all k (record { cfg = merge_db_settings k base t; table = t; manager = m }) ps).table
      ≡ (apply_all k (record { cfg = merge_db_settings k base t; table = t; manager = m }) ps).cfg
restart-apply_all k base t m ps shown = apply_all-IsSynced k base _ ps shown refl

-- A schedule that is blanked is blank in memory, but a restart brings the schedule of the file back.
pub restart-blank_schedule :
    (k : Codec) (base : Config) (h : ConfigHandler) (p : ConfigPatch)
    → p.schedule ≡ some ""
    → ((apply k h p).0.cfg.schedule ≡ "")
      × ((merge_db_settings k base (apply k h p).0.table).schedule ≡ base.schedule)
unfolding apply patch_first patch_last patch_workers patch_scan_paused patch_schedule patch_walkers
    patch_partial_hashers patch_full_hashers set_retention merge_db_settings
restart-blank_schedule k base h p e = ground arith

-- A retention in 1 to 365 days stays there, whatever the patch.
pub apply-retention :
    (k : Codec) (h : ConfigHandler) (p : ConfigPatch)
    → in_range 1 365 h.cfg.trash_retention_days ≡ true
    → in_range 1 365 (apply k h p).0.cfg.trash_retention_days ≡ true
unfolding apply patch_first patch_last patch_workers patch_scan_paths patch_exclude_paths
    patch_scan_paused patch_schedule patch_walkers patch_partial_hashers patch_full_hashers
    set_retention
apply-retention k h p good = ground arith

-- A patch that is refused for its retention has taken effect all the same in the fields before it: a
-- list of paths is in memory and saved, and only the scan manager has not been told.
pub apply-refused :
    (k : Codec) (h : ConfigHandler) (p : ConfigPatch) (v : ℤ) (ps : List String)
    → p.trash_retention_days ≡ some v
    → in_range 1 365 v ≡ false
    → p.scan_paths ≡ some ps
    → ((apply k h p).1 ≡ false)
      × ((apply k h p).0.cfg.scan_paths ≡ ps)
      × ((apply k h p).0.table "scan_paths" ≡ some (k.marshal ps))
      × ((apply k h p).0.manager ≡ h.manager)
unfolding apply patch_first patch_scan_paths patch_exclude_paths patch_scan_paused patch_schedule
apply-refused k h p v ps e bad given = ground arith
