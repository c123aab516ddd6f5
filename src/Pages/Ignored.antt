-- ===== src/Pages/Ignored.antt =====
-- uiGroupIgnore, uiGroupReset and uiTrashRestore (internal/api/pages.go) against the API's Ignore, Reset and
-- Restore (internal/api/handlers).
use ditto.Prelude.{
  ℕ, ◌≡◌, refl, List, [], ◌∷◌, Option, none, some, Bool, true, false, String, arith, Option-cases,
  inl, inr,
}
use ditto.Tables.{DuplicateGroup, unresolved, find_group, update_group}
use ditto.Groups.Ignore.{
  hash, path_pair, dir, Desk, IgnoreFaults, Body, of_kind, other_type, insert_entry, listing,
  enlist, ignore, reset,
}
use ditto.Groups.Listed.{is_listed}
use ditto.Disk.{Faults}
use ditto.Trash.Manager.{World, DbFaults, Names, find_trashed, restore}
use ditto.Trash.Handlers.{answer_restore}
use ditto.Pages.Ignore.{
  ui_trash_restore, PageAnswer, group_updated, page_listing, set_status, ui_group_ignore,
  ui_group_reset,
}

abbrev pub is_updated : PageAnswer → Bool
is_updated group_updated = true
is_updated _ = false

-- The tables of one desk, with the configuration of another.
abbrev pub configured_as : Desk → Desk → Desk
configured_as s s' = record s' { config = s.config }

module _ (sort : List String → List String) (json : List String → String)
    (parse_int : String → Option ℕ) (χ : IgnoreFaults) (now : ℕ) (s : Desk) (id : String)
    (group : ℕ) where
  -- For the id of a group, and where the database does not refuse the entry, the page does to the groups
  -- and the whitelist what the API does for the same type and path, and reports success where the API
  -- does; but it leaves the configuration, and with it the scan manager, as it is, so that a directory
  -- is excluded from later scans by the API alone.
  pub ui_group_ignore-eq-ignore :
      (body : Body)
      → parse_int id ≡ some group
      → χ.insert ≡ false
      → ((ui_group_ignore sort json parse_int χ now s id body).0
          ≡ configured_as s (ignore sort json χ now s group (some body)).0)
        × (is_updated (ui_group_ignore sort json parse_int χ now s id body).1
            ≡ is_listed (ignore sort json χ now s group (some body)).1)
  unfolding ui_group_ignore page_listing set_status ignore listing enlist insert_entry
  ui_group_ignore-eq-ignore other_type at ok = (ground arith, ground arith)
  ui_group_ignore-eq-ignore (of_kind hash path) at ok = (ground arith, ground arith)
  ui_group_ignore-eq-ignore (of_kind path_pair path) at ok = (ground arith, ground arith)
  ui_group_ignore-eq-ignore (of_kind dir path) at ok = (ground arith, ground arith)

update_group-absent :
    (k : ℕ) (f : DuplicateGroup → DuplicateGroup) (gs : List DuplicateGroup)
    → find_group k gs ≡ none
    → update_group k f gs ≡ gs
update_group-absent k f [] h = refl
update_group-absent k f (g ∷ gs) h = ground (arith, update_group-absent k f gs)

-- For an id that is a number, of a group or of none, the page's reset leaves what the API's does.
pub ui_group_reset-eq-reset :
    (parse_int : String → Option ℕ) (refused : Bool) (now : ℕ) (s : Desk) (id : String) (group : ℕ)
    → parse_int id ≡ some group
    → (ui_group_reset parse_int refused now s id).0 ≡ (reset refused now s group).0
unfolding ui_group_reset reset
ui_group_reset-eq-reset parse_int refused now s id group at =
    elim (Option-cases (find_group group s.groups)) [
      | inr (g, there) ↦ ground arith
      | inl absent ↦
          let change = λ (g : DuplicateGroup). record g {
            status = unresolved;
            ignored_at = none;
            updated_at = now;
          } in
          ground (arith, update_group-absent group change s.groups absent)
    ]

-- The page's restore leaves what the API's does, where the API can read the path.
pub ui_trash_restore-eq-answer_restore :
    (parse_int : String → Option ℕ) (φ : Faults) (ψ : DbFaults) (now : ℕ) (n : Names) (w : World)
    (id : String)
    → ψ.query ≡ false
    → (ui_trash_restore parse_int φ ψ now n w id).0
      ≡ (answer_restore parse_int φ ψ now n false w id).0
unfolding ui_trash_restore answer_restore restore
ui_trash_restore-eq-answer_restore parse_int φ ψ now n w id h = elim (Option-cases (parse_int id)) [
  | inl none_given ↦ ground arith
  | inr (k, at) ↦ elim (Option-cases (find_trashed k w.trash)) [
    | inl absent ↦ ground arith
    | inr (r, there) ↦ ground arith
  ]
]
