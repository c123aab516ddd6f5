-- ===== src/Tests/Ignore.antt =====
-- GroupsHandler.Ignore and Reset (internal/api/handlers/groups.go) on one group.
use ditto.Prelude.{
  pos, ℕ, ◌≡◌, refl, List, [], ◌∷◌, Option, none, some, true, false, String, string_key,
  if◌then◌else◌, ◌==◌,
}
use ditto.Tables.{ignored, watching}
use ditto.Scan.Manager.{Manager, new_manager}
use ditto.Groups.Ignore.{
  path_pair, dir, Settings, Desk, IgnoreFaults, of_kind, other_type, listed, insert_entry,
  exclude_dir, ignore, listing, enlist,
}
use ditto.Groups.Listed.{is_listed}
use ditto.Pages.Ignore.{
  wrong_type, panicked, group_updated, ui_group_ignore, page_listing, set_status,
}
use ditto.Pages.Ignored.{configured_as, is_updated, ui_group_ignore-eq-ignore}
use ditto.Tests.Groups.{group, row}
use ditto.Tests.Manager.{history, config}
use ditto.Tests.Data.{path_a, path_b}

abbrev as_is : List String → List String
as_is ps = ps

abbrev first_path : List String → String
first_path [] = "[]"
first_path (p ∷ ps) = p

abbrev settings : Settings
settings = record {
  scan_paths = "/photos" ∷ [];
  exclude_paths = [];
  walkers = pos 4;
  partial_hashers = pos 4;
  full_hashers = pos 2;
}

abbrev idle : Manager
idle = new_manager history ("/photos" ∷ []) [] config

abbrev desk : Desk
desk = record {
  groups = group ∷ [];
  files = row path_a 11 ∷ row path_b 12 ∷ [];
  whitelist = [];
  last_id = 0;
  last_rowid = 12;
  config = some (settings, idle);
}

abbrev no_faults : IgnoreFaults
no_faults = record {
  group_query = false;
  path_query = false;
  insert = false;
  id_query = false;
  update_status = false;
}

no_path : is_listed (ignore as_is first_path no_faults 70 desk 4 (some (of_kind dir ""))).1 ≡ false
unfolding ignore listing enlist insert_entry
no_path = refl

watched :
    (ignore as_is first_path no_faults 70 desk 4 (some (of_kind path_pair ""))).1
    ≡ listed 1 path_pair path_a watching
unfolding ignore listing enlist insert_entry
watched = refl

excluded_reply :
    (ignore as_is first_path no_faults 70 desk 4 (some (of_kind dir "/photos/raw"))).1
    ≡ listed 1 dir "/photos/raw" ignored
unfolding ignore listing enlist insert_entry
excluded_reply = refl

excluded_config :
    (ignore as_is first_path no_faults 70 desk 4 (some (of_kind dir "/photos/raw"))).0.config
    ≡ some (exclude_dir "/photos/raw" (settings, idle))
unfolding ignore listing enlist insert_entry
excluded_config = refl

abbrev four : String → Option ℕ
four t = if t == "4" then some 4 else none

page_watched :
    (ui_group_ignore as_is first_path four no_faults 70 desk "4" (of_kind path_pair "")).1
    ≡ group_updated
unfolding ui_group_ignore page_listing set_status insert_entry
page_watched = refl

page_other : (ui_group_ignore as_is first_path four no_faults 70 desk "4" other_type).1 ≡ wrong_type
unfolding ui_group_ignore
page_other = refl

page_panics :
    (ui_group_ignore as_is first_path four
      (record no_faults { path_query = true })
      70
      desk
      "4"
      (of_kind path_pair "")).1
    ≡ panicked
unfolding ui_group_ignore page_listing
page_panics = refl

-- The page leaves the group marked although the whitelist has refused the entry.
page_unlisted :
    (ui_group_ignore as_is first_path four
      (record no_faults { insert = true })
      70
      desk
      "4"
      (of_kind dir "/photos/raw"))
    ≡ (
      record desk {
        groups = record group { status = ignored; ignored_at = some 70; updated_at = 70 } ∷ [];
      },
      group_updated,
    )
unfolding ui_group_ignore page_listing set_status insert_entry
page_unlisted = refl

ui_group_ignore-eq-ignore_example :
    ((ui_group_ignore as_is first_path four no_faults 70 desk "4" (of_kind dir "/photos/raw")).0
      ≡ configured_as desk
          (ignore as_is first_path no_faults 70 desk 4 (some (of_kind dir "/photos/raw"))).0)
    × (is_updated
          (ui_group_ignore as_is first_path four no_faults 70 desk "4"
            (of_kind dir "/photos/raw")).1
        ≡ is_listed
            (ignore as_is first_path no_faults 70 desk 4 (some (of_kind dir "/photos/raw"))).1)
ui_group_ignore-eq-ignore_example =
    ui_group_ignore-eq-ignore as_is first_path four no_faults 70 desk "4" 4
      (of_kind dir "/photos/raw") refl refl
