-- ===== src/Pages/Delete.antt =====
-- uiGroupDelete (internal/api/pages.go): the form that deletes copies of a group. Ids are not negative, as
-- in Groups.Delete; the order in which Go ranges over the map of the files is a parameter.
use ditto.Prelude.{
  ℕ, ◌-◌, List, [], ◌∷◌, Option, none, some, Bool, false, not, ◌||◌, ◌&&◌, String, if◌then◌else◌,
  leb, nat_beq, keep, length, string_key, ◌==◌, mem,
}
use ditto.Disk.{Disk, Faults, Stat, missing, denied, found, stat}
use ditto.Trash.Manager.{Names, World, DbFaults}
use ditto.Tables.{
  DuplicateGroup, DuplicateFile, GroupStatus, unresolved, resolved, find_group, update_group,
  files_of,
}
use ditto.Groups.Delete.{Db, modified, retention, reclaimable, move_all}

-- What the database refuses, besides the statements of the trash. The results of the statements within
-- the transaction and of the commit are not read.
pub record PageFaults : Type 0 where
  pub group_query : Bool
  pub file_query : Bool
  pub begin : Bool
  pub delete_row : ℕ → Bool
  pub update_group : Bool
  pub commit : Bool

-- What the check of a file on the disk finds.
pub data Failure : Type 0 where
  file_missing file_modified keeper_missing : String → Failure

-- Where the browser is sent, and why.
pub data Redirect : Type 0 where
  not_found group_not_found database_error invalid_keeper none_selected none_kept : Redirect
  check_failed : Failure → Redirect
  failed_to_trash : Redirect
  files_deleted : GroupStatus → Redirect

-- The form: `keeper_id`, and the `delete_file_ids` that are ticked.
pub record DeleteForm : Type 0 where
  pub keeper_id : String
  pub delete_file_ids : List String

abbrev pub is_keeper : Option ℕ → ℕ → Bool
is_keeper none k = false
is_keeper (some j) k = nat_beq j k

abbrev pub ids_of : List DuplicateFile → List ℕ
ids_of [] = []
ids_of (f ∷ fs) = f.id ∷ ids_of fs

-- The check of one file: a selected one is on the disk as the last scan saw it, the keeper is there.
abbrev pub check_file : Option ℕ → List ℕ → DuplicateFile → Stat → Option Failure
check_file keeper ids f missing =
    if mem f.id ids
    then some (file_missing f.path)
    else if is_keeper keeper f.id
    then some (keeper_missing f.path)
    else none
check_file keeper ids f denied = none
check_file keeper ids f (found g) =
    if mem f.id ids && modified g f then some (file_modified f.path) else none

-- The loop over the files: the first failure, if any.
unfoldable pub check_files : Faults → Disk → Option ℕ → List ℕ → List DuplicateFile → Option Failure
check_files φ d keeper ids [] = none
check_files φ d keeper ids (f ∷ fs) =
    let rest = check_files φ d keeper ids fs in
    elim (check_file keeper ids f (stat φ d f.path)) [ some r ↦ some r | none ↦ rest ]

-- The ids that are numbers.
abbrev pub parse_ids : (String → Option ℕ) → List String → List ℕ
parse_ids parse_int [] = []
parse_ids parse_int (s ∷ ss) = elim (parse_int s) [
  | none ↦ parse_ids parse_int ss
  | some k ↦ k ∷ parse_ids parse_int ss
]

module _ (parse_int : String → Option ℕ) (ranged : List DuplicateFile → List DuplicateFile) where
  -- The two modes of the form: the keeper and the ids to delete, or none if the keeper is no number.
  unfoldable pub selection : DeleteForm → List DuplicateFile → Option (Option ℕ × List ℕ)
  selection f all =
      if f.keeper_id == ""
      then some (none, parse_ids parse_int f.delete_file_ids)
      else elim (parse_int f.keeper_id) [
        | none ↦ none
        | some k ↦ some (some k, ids_of (keep (λ r. not (nat_beq r.id k)) (ranged all)))
      ]

  module _ (φ : Faults) (ψ : DbFaults) (clock : ℕ → ℕ) (n : Names) (trash_dir : String) where
    -- The transaction and the redirect after it.
    unfoldable pub settle_page :
        PageFaults → ℕ → Db → World → DuplicateGroup → ℕ → List ℕ → Db × Redirect
    settle_page χ now db w g count ids =
        let remaining = count - length ids in
        let solved = leb remaining 1 in
        let status = if solved then resolved else unresolved in
        let change = λ (r : DuplicateGroup). record r {
          file_count = remaining;
          reclaimable_bytes = if solved then 0 else reclaimable g.file_size remaining;
          status = status;
          resolved_at = if solved then some now else r.resolved_at;
          updated_at = now;
        } in
        let stored : Db = record {
          world = w;
          groups = if χ.update_group then db.groups else update_group g.id change db.groups;
          files = keep (λ f. not (mem f.id ids) || χ.delete_row f.id) db.files;
        } in
        if χ.begin
        then (record db { world = w }, database_error)
        else (if χ.commit then record db { world = w } else stored, files_deleted status)

    unfoldable pub delete_selected :
        PageFaults → ℕ → ℕ → Db → DuplicateGroup → Option ℕ → List ℕ → Db × Redirect
    delete_selected χ now days db g keeper ids =
        let all = files_of g.id db.files in
        let (w, moved) =
          move_all φ ψ clock n trash_dir all g.id g.content_hash (retention days) 0 db.world ids in
        if nat_beq (length ids) 0
        then (db, none_selected)
        else if leb (length all) (length ids)
        then (db, none_kept)
        else elim (check_files φ db.world.disk keeper ids (ranged all)) [
          | some r ↦ (db, check_failed r)
          | none ↦ elim moved [
            | none ↦ (record db { world = w }, failed_to_trash)
            | some trashed ↦ settle_page χ now db w g (length all) ids
          ]
        ]

    -- The handler; `days` is the retention of the configuration, 0 if there is none.
    unfoldable pub ui_group_delete : PageFaults → ℕ → ℕ → Db → String → DeleteForm → Db × Redirect
    ui_group_delete χ now days db id form = elim (parse_int id) [
      | none ↦ (db, not_found)
      | some group ↦
          if χ.group_query then (db, group_not_found) else elim (find_group group db.groups) [
            | none ↦ (db, group_not_found)
            | some g ↦
                if χ.file_query
                then (db, database_error)
                else elim (selection form (files_of g.id db.files)) [
                  | none ↦ (db, invalid_keeper)
                  | some (keeper, ids) ↦ delete_selected χ now days db g keeper ids
                ]
          ]
    ]
