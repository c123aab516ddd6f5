-- ===== src/Pages/Resent.antt =====
-- The settings form that is sent as it was shown (internal/api/pages.go, settingsPage and uiSettingsSave).
use ditto.Prelude.{
  ◌≡◌, refl, List, [], ◌∷◌, some, Bool, true, false, not, ◌&&◌, String, ℤ, in_range, at_least, ◌==◌,
  string_key, arith, ap, ◌∙◌, sym,
}
use Prim.Native.String as Str
use text.Mathlib.TextEquality.{eq_iff}
use ditto.Settings.Defs.{Config, Codec}
use ditto.Settings.Patch.{
  ConfigHandler, ConfigPatch, apply, patch_scan_paths, patch_exclude_paths, patch_schedule,
  patch_scan_paused, set_retention, patch_walkers, patch_partial_hashers, patch_full_hashers,
  patch_workers, patch_first, patch_last,
}
use ditto.Settings.Form.{SettingsForm, slice, check, keep_lines, parse_paths, save}
use ditto.Pages.Fragment.{SettingsPage, settings_page}

module _ (k : Codec) (h : ConfigHandler) (c : Config) (same : h.cfg ≡ c) where
  patch_scan_paths-slice : (patch_scan_paths k h (slice c.scan_paths)).cfg ≡ c
  unfolding patch_scan_paths
  patch_scan_paths-slice =
      elim c.scan_paths as (λ ps. c.scan_paths ≡ ps → (patch_scan_paths k h (slice ps)).cfg ≡ c) [
        | [] ↦ λ e. same
        | p ∷ ps ↦ λ e.
            ap (λ (y : Config). record y { scan_paths = p ∷ ps }) same
            ∙ ap (λ l. record c { scan_paths = l }) (sym e)
      ]
        refl

  patch_exclude_paths-slice : (patch_exclude_paths k h (slice c.exclude_paths)).cfg ≡ c
  unfolding patch_exclude_paths
  patch_exclude_paths-slice =
      elim c.exclude_paths
          as (λ ps. c.exclude_paths ≡ ps → (patch_exclude_paths k h (slice ps)).cfg ≡ c) [
            | [] ↦ λ e. same
            | p ∷ ps ↦ λ e.
                ap (λ (y : Config). record y { exclude_paths = p ∷ ps }) same
                ∙ ap (λ l. record c { exclude_paths = l }) (sym e)
          ]
        refl

  patch_schedule-same : (patch_schedule k h (some c.schedule)).cfg ≡ c
  unfolding patch_schedule
  patch_schedule-same = ap (λ (y : Config). record y { schedule = c.schedule }) same

  patch_scan_paused-same : (patch_scan_paused k h (some c.scan_paused)).cfg ≡ c
  unfolding patch_scan_paused
  patch_scan_paused-same = ap (λ (y : Config). record y { scan_paused = c.scan_paused }) same

  set_retention-same : (set_retention k h c.trash_retention_days).cfg ≡ c
  unfolding set_retention
  set_retention-same =
      ap (λ (y : Config). record y { trash_retention_days = c.trash_retention_days }) same

  patch_workers-same :
      (patch_workers k h (
        some (record {
          walkers = some c.scan_workers.walkers;
          partial_hashers = some c.scan_workers.partial_hashers;
          full_hashers = some c.scan_workers.full_hashers;
        }))).cfg
      ≡ c
  unfolding patch_workers patch_walkers patch_partial_hashers patch_full_hashers
  patch_workers-same =
      ap
        (λ (y : Config). record y {
          scan_workers = record {
            walkers = c.scan_workers.walkers;
            cache_checkers = y.scan_workers.cache_checkers;
            partial_hashers = c.scan_workers.partial_hashers;
            full_hashers = c.scan_workers.full_hashers;
          };
        })
        same

-- What the form sends back of a patch that is the configuration's own.
abbrev own_patch : Config → ConfigPatch
own_patch c = record {
  scan_paths = slice c.scan_paths;
  exclude_paths = slice c.exclude_paths;
  schedule = some c.schedule;
  scan_paused = some c.scan_paused;
  trash_retention_days = some c.trash_retention_days;
  scan_workers = some (record {
    walkers = some c.scan_workers.walkers;
    partial_hashers = some c.scan_workers.partial_hashers;
    full_hashers = some c.scan_workers.full_hashers;
  });
}

apply-own_patch :
    (k : Codec) (h : ConfigHandler)
    → in_range 1 365 h.cfg.trash_retention_days ≡ true
    → ((apply k h (own_patch h.cfg)).0.cfg ≡ h.cfg) × ((apply k h (own_patch h.cfg)).1 ≡ true)
unfolding apply patch_first patch_last
apply-own_patch k h allowed =
    let c = h.cfg in
    let e1 = patch_scan_paths-slice k h c refl in
    let e2 = patch_exclude_paths-slice k _ c e1 in
    let e3 = patch_schedule-same k _ c e2 in
    let e4 = patch_scan_paused-same k _ c e3 in
    let e5 = set_retention-same k _ c e4 in
    let e6 = patch_workers-same k _ c e5 in rw allowed (e6, refl)

-- A box, as it is sent.
abbrev pub box : Bool → String
box true = "on"
box false = ""

box_on : (b : Bool) → (box b == "on") ≡ b
box_on true = refl
box_on false = refl

-- A line with the carriage return that a browser puts before the line feed.
abbrev pub with_return : String → String
with_return p = Str.◌++◌ p "\r"

-- The lines of a posted text area: each but the last ends in a carriage return.
abbrev pub returned : List String → List String
returned [] = []
returned (p ∷ []) = p ∷ []
returned (p ∷ q ∷ ps) = with_return p ∷ returned (q ∷ ps)

-- The form that settings.html makes of the page, with every field left as it is; `posted` is what a
-- browser sends of the text in a text area.
abbrev pub form_of : Codec → (String → String) → SettingsPage → SettingsForm
form_of k posted d = record {
  scan_paths = posted d.scan_paths;
  exclude_paths = posted d.exclude_paths;
  schedule = d.schedule;
  scan_paused = box d.scan_paused;
  trash_retention_days = k.itoa d.trash_retention_days;
  walkers = k.itoa d.walkers;
  partial_hashers = k.itoa d.partial_hashers;
  full_hashers = k.itoa d.full_hashers;
}

module _ (k : Codec) (split_lines : String → List String) (trim_space : String → String)
    (lines : List String → String) (posted : String → String) (has_break : String → Bool) where
  -- Texts that are lines: not empty, with no space around them and no line feed within.
  abbrev pub are_lines : List String → Bool
  are_lines [] = true
  are_lines (p ∷ ps) = not (p == "") && (trim_space p == p) && not (has_break p) && are_lines ps

  keep_lines-returned :
      (ps : List String)
      → ((p : String) → trim_space (with_return p) ≡ trim_space p)
      → are_lines ps ≡ true
      → keep_lines k split_lines trim_space (returned ps) ≡ ps
  keep_lines-returned [] cut h = refl
  keep_lines-returned (p ∷ []) cut h =
      ground (arith, eq_iff (trim_space p) p, eq_iff (trim_space p) "", eq_iff p "")
  keep_lines-returned (p ∷ q ∷ ps) cut h =
      let rest : keep_lines k split_lines trim_space (returned (q ∷ ps)) ≡ q ∷ ps =
        keep_lines-returned (q ∷ ps) cut (ground arith) in
      rw (cut p, rest)
        (ground (arith, eq_iff (trim_space p) p, eq_iff (trim_space p) "", eq_iff p ""))

  parse_paths-returned :
      (ps : List String)
      → trim_space "" ≡ ""
      → split_lines (posted (lines [])) ≡ "" ∷ []
      → ((p : String) → trim_space (with_return p) ≡ trim_space p)
      → ((p : String) (qs : List String)
          → are_lines (p ∷ qs) ≡ true
          → split_lines (posted (lines (p ∷ qs))) ≡ returned (p ∷ qs))
      → are_lines ps ≡ true
      → parse_paths k split_lines trim_space (posted (lines ps)) ≡ slice ps
  unfolding parse_paths
  parse_paths-returned [] blank nothing cut joined h =
      rw nothing (ground (arith, eq_iff (trim_space "") ""))
  parse_paths-returned (p ∷ ps) blank nothing cut joined h =
      ap (λ l. slice (keep_lines k split_lines trim_space l)) (joined p ps h)
      ∙ ap slice (keep_lines-returned (p ∷ ps) cut h)

  abbrev patch_of : SettingsForm → ℤ → ℤ → ℤ → ℤ → ConfigPatch
  patch_of f retention walkers partial full = record {
    scan_paths = parse_paths k split_lines trim_space f.scan_paths;
    exclude_paths = parse_paths k split_lines trim_space f.exclude_paths;
    schedule = some (trim_space f.schedule);
    scan_paused = some (f.scan_paused == "on");
    trash_retention_days = some retention;
    scan_workers = some (record {
      walkers = some walkers;
      partial_hashers = some partial;
      full_hashers = some full;
    });
  }

  -- A form whose numbers are allowed is applied.
  save-checked :
      (h : ConfigHandler) (f : SettingsForm) (retention walkers partial full : ℤ)
      → check (in_range 1 365) (k.atoi f.trash_retention_days) ≡ some retention
      → check (at_least 1) (k.atoi f.walkers) ≡ some walkers
      → check (at_least 1) (k.atoi f.partial_hashers) ≡ some partial
      → check (at_least 1) (k.atoi f.full_hashers) ≡ some full
      → (save k split_lines trim_space h f).0
        ≡ (apply k h (patch_of f retention walkers partial full)).0
  unfolding save
  save-checked h f retention walkers partial full a b c d = ground arith

  check-itoa : (good : ℤ → Bool) (n : ℤ) → good n ≡ true → check good (k.atoi (k.itoa n)) ≡ some n
  check-itoa good n ok = ground (arith, k.atoi-itoa n)

  -- The settings form, sent as the page shows it, leaves the configuration as it is, where the page can be
  -- sent: its paths are lines, no space is around the schedule, and the numbers are within their bounds.
  -- It is assumed that strings.Split takes apart what strings.Join has put together, with a carriage
  -- return at the end of each line but the last, since a browser posts the text of an area with such line
  -- ends; and that strings.TrimSpace cuts nothing from the empty text, and a carriage return that ends a
  -- line.
  pub save-settings_page :
      (h : ConfigHandler)
      → trim_space "" ≡ ""
      → split_lines (posted (lines [])) ≡ "" ∷ []
      → ((p : String) → trim_space (with_return p) ≡ trim_space p)
      → ((p : String) (qs : List String)
          → are_lines (p ∷ qs) ≡ true
          → split_lines (posted (lines (p ∷ qs))) ≡ returned (p ∷ qs))
      → are_lines h.cfg.scan_paths ≡ true
      → are_lines h.cfg.exclude_paths ≡ true
      → trim_space h.cfg.schedule ≡ h.cfg.schedule
      → in_range 1 365 h.cfg.trash_retention_days ≡ true
      → at_least 1 h.cfg.scan_workers.walkers ≡ true
      → at_least 1 h.cfg.scan_workers.partial_hashers ≡ true
      → at_least 1 h.cfg.scan_workers.full_hashers ≡ true
      → (save k split_lines trim_space h (form_of k posted (settings_page lines h.cfg))).0.cfg
        ≡ h.cfg
  unfolding settings_page
  save-settings_page h blank nothing cut joined scanned excluded trimmed days walkers partial full =
      let c = h.cfg in
      let w = c.scan_workers in
      let f = form_of k posted (settings_page lines c) in
      let a = parse_paths-returned c.scan_paths blank nothing cut joined scanned in
      let b = parse_paths-returned c.exclude_paths blank nothing cut joined excluded in
      let saved =
        save-checked h f c.trash_retention_days w.walkers w.partial_hashers w.full_hashers
          (check-itoa (in_range 1 365) c.trash_retention_days days)
          (check-itoa (at_least 1) w.walkers walkers)
          (check-itoa (at_least 1) w.partial_hashers partial)
          (check-itoa (at_least 1) w.full_hashers full) in
      let own : patch_of f c.trash_retention_days w.walkers w.partial_hashers w.full_hashers
          ≡ own_patch c =
        λ i. record {
          scan_paths = a i;
          exclude_paths = b i;
          schedule = some (trimmed i);
          scan_paused = some (box_on c.scan_paused i);
          trash_retention_days = some c.trash_retention_days;
          scan_workers = some (record {
            walkers = some w.walkers;
            partial_hashers = some w.partial_hashers;
            full_hashers = some w.full_hashers;
          });
        } in
      ap (λ (x : ConfigHandler). x.cfg) saved
      ∙ ap (λ p. (apply k h p).0.cfg) own
      ∙ (apply-own_patch k h days).0
