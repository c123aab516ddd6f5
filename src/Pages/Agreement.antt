-- ===== src/Pages/Agreement.antt =====
-- The form that deletes copies (uiGroupDelete of internal/api/pages.go) against the API's handler
-- (GroupsHandler.Delete of internal/api/handlers/groups.go).
use ditto.Prelude.{
  ℕ, ◌≡◌, refl, List, [], ◌∷◌, Option, none, some, Bool, true, false, String, leb, length, count_if,
  mem, arith, Option-cases, inl, inr, ap, sym, ◌∙◌, string_key,
}
use ditto.Disk.{Disk, Faults, stat}
use ditto.Trash.Manager.{Names, DbFaults}
use ditto.Tables.{DuplicateGroup, DuplicateFile, GroupStatus, find_group, files_of}
use ditto.Groups.Delete.{
  Db, GroupFaults, deleted, validate, validate_all, settle, delete_in, delete,
}
use ditto.Groups.Safety.{delete_in-deleted, keep-unrefused}
use ditto.Pages.Delete.{
  PageFaults, Failure, files_deleted, DeleteForm, check_file, check_files, parse_ids, selection,
  settle_page, delete_selected, ui_group_delete,
}

abbrev pub no_page_faults : PageFaults
no_page_faults = record {
  group_query = false;
  file_query = false;
  begin = false;
  delete_row = λ _. false;
  update_group = false;
  commit = false;
}

abbrev is_some : Option Failure → Bool
is_some none = false
is_some (some r) = true

-- Does the form's check refuse the file?
abbrev fails : Faults → Disk → List ℕ → DuplicateFile → Bool
fails φ d ids f = is_some (check_file none ids f (stat φ d f.path))

check_files-none :
    (φ : Faults) (d : Disk) (ids : List ℕ) (fs : List DuplicateFile)
    → count_if (fails φ d ids) fs ≡ 0
    → check_files φ d none ids fs ≡ none
unfolding check_files
check_files-none φ d ids [] h = refl
check_files-none φ d ids (f ∷ fs) h = ground (arith, check_files-none φ d ids fs)

-- The API's check of a file is the stricter one.
fails_of_validate :
    (φ : Faults) (d : Disk) (ids : List ℕ) (f : DuplicateFile)
    → validate φ d (mem f.id ids) f ≡ none
    → fails φ d ids f ≡ false
unfolding validate stat
fails_of_validate φ d ids f h = ground arith

validate_all-fails :
    (φ : Faults) (d : Disk) (ids : List ℕ) (fs : List DuplicateFile)
    → validate_all φ d ids fs ≡ []
    → count_if (fails φ d ids) fs ≡ 0
unfolding validate_all
validate_all-fails φ d ids [] h = refl
validate_all-fails φ d ids (f ∷ fs) h = elim (Option-cases (validate φ d (mem f.id ids) f)) [
  | inr (r, bad) ↦ absurd (ground arith)
  | inl good ↦ ground (arith, fails_of_validate φ d ids f good, validate_all-fails φ d ids fs)
]

module _ (parse_int : String → Option ℕ) (ranged : List DuplicateFile → List DuplicateFile)
    (φ : Faults) (ψ : DbFaults) (clock : ℕ → ℕ) (n : Names) (trash_dir : String)
    (once : (p : DuplicateFile → Bool) (fs : List DuplicateFile)
      → count_if p (ranged fs) ≡ count_if p fs) where
  delete_selected-eq :
      (χ : GroupFaults) (now days : ℕ) (db : Db) (g : DuplicateGroup) (k : ℕ) (ks : List ℕ)
      (ts : List (ℕ × ℕ)) (c l : ℕ) (s : GroupStatus)
      → leb (length (files_of g.id db.files)) (length (k ∷ ks)) ≡ false
      → ((j : ℕ) → χ.delete_row j ≡ false)
      → χ.update_group ≡ false
      → (delete_in φ ψ clock n trash_dir χ now days db g (k ∷ ks)).1 ≡ deleted ts c l s
      → delete_selected parse_int ranged φ ψ clock n trash_dir no_page_faults now days db g none
          (k ∷ ks)
        ≡ ((delete_in φ ψ clock n trash_dir χ now days db g (k ∷ ks)).0, files_deleted s)
  unfolding delete_selected delete_in settle settle_page
  delete_selected-eq χ now days db g k ks ts c l s few kept updated h =
      let all = files_of g.id db.files in
      let ids = k ∷ ks in
      let (_, valid) = delete_in-deleted φ ψ clock n trash_dir χ now days db g ids ts c l s h in
      let checked : check_files φ db.world.disk none ids (ranged all) ≡ none =
        check_files-none φ db.world.disk ids (ranged all) (
          once (fails φ db.world.disk ids) all
          ∙ validate_all-fails φ db.world.disk ids all valid) in
      ground (
        arith,
        checked,
        few,
        kept,
        updated,
        keep-unrefused χ.delete_row kept ids db.files,
        keep-unrefused (λ _. false) (λ _. refl) ids db.files,
      )

  -- Where the API deletes the files that it is asked to, the form with the boxes of those files ticked
  -- does the same to the disk, the trash and the tables, and ends in the same status, provided that it
  -- names fewer ids than the group has files, counting repetitions, that the database refuses nothing to
  -- the form, and no statement of its transaction to the API, and that ranging over the map of the files gives each of them once.
  pub ui_group_delete-eq-delete :
      (χ : GroupFaults) (now days : ℕ) (db : Db) (id : String) (group k : ℕ) (ks : List ℕ)
      (g : DuplicateGroup) (boxes : List String) (ts : List (ℕ × ℕ)) (c l : ℕ) (s : GroupStatus)
      → parse_int id ≡ some group
      → parse_ids parse_int boxes ≡ k ∷ ks
      → find_group group db.groups ≡ some g
      → leb (length (files_of g.id db.files)) (length (k ∷ ks)) ≡ false
      → ((j : ℕ) → χ.delete_row j ≡ false)
      → χ.update_group ≡ false
      → (delete φ ψ clock n trash_dir χ now days db group (some (k ∷ ks))).1 ≡ deleted ts c l s
      → ui_group_delete parse_int ranged φ ψ clock n trash_dir no_page_faults now days db id
          (record { keeper_id = ""; delete_file_ids = boxes })
        ≡ ((delete φ ψ clock n trash_dir χ now days db group (some (k ∷ ks))).0, files_deleted s)
  unfolding ui_group_delete selection delete
  ui_group_delete-eq-delete χ now days db id group k ks g boxes ts c l s at ticked there few kept
        updated h =
      let inner : (delete_in φ ψ clock n trash_dir χ now days db g (k ∷ ks)).1 ≡ deleted ts c l s =
        ground arith in
      let same = delete_selected-eq χ now days db g k ks ts c l s few kept updated inner in
      let form : DeleteForm = record { keeper_id = ""; delete_file_ids = boxes } in
      let page : ui_group_delete parse_int ranged φ ψ clock n trash_dir no_page_faults now days db
            id form
          ≡ delete_selected parse_int ranged φ ψ clock n trash_dir no_page_faults now days db g none
              (k ∷ ks) =
        ground arith in
      let api : delete φ ψ clock n trash_dir χ now days db group (some (k ∷ ks))
          ≡ delete_in φ ψ clock n trash_dir χ now days db g (k ∷ ks) =
        ground arith in
      page ∙ same ∙ ap (λ r. (r.0, files_deleted s)) (sym api)

-- A refused commit is not noticed: the form reports the files deleted, and they are in the trash, but
-- the rows of the files and of the group are as before.
pub ui_group_delete-uncommitted :
    (parse_int : String → Option ℕ) (ranged : List DuplicateFile → List DuplicateFile) (φ : Faults)
    (ψ : DbFaults) (clock : ℕ → ℕ) (n : Names) (trash_dir : String) (χ : PageFaults) (now days : ℕ)
    (db : Db) (id : String) (form : DeleteForm) (s : GroupStatus)
    → χ.commit ≡ true
    → (ui_group_delete parse_int ranged φ ψ clock n trash_dir χ now days db id form).1
      ≡ files_deleted s
    → ((ui_group_delete parse_int ranged φ ψ clock n trash_dir χ now days db id form).0.files
        ≡ db.files)
      × ((ui_group_delete parse_int ranged φ ψ clock n trash_dir χ now days db id form).0.groups
          ≡ db.groups)
unfolding ui_group_delete delete_selected settle_page selection
ui_group_delete-uncommitted parse_int ranged φ ψ clock n trash_dir χ now days db id form s refused
      h =
    (ground arith, ground arith)
