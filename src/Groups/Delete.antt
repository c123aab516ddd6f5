-- ===== src/Groups/Delete.antt =====
-- GroupsHandler.Delete (internal/api/handlers/groups.go): selected copies of a group go to the
-- trash, after every file of the group has been checked against the last scan.
use ditto.Prelude.{
  ℕ, ◌+◌, ◌-◌, ◌*◌, ◌%◌, List, [], ◌∷◌, Option, none, some, Bool, not, ◌||◌, String, if◌then◌else◌,
  leb, ltb, nat_beq, keep, length, string_key, mem, distinct,
}
use ditto.Scan.Types.{word, unix}
use ditto.Disk.{File, Disk, Faults, missing, denied, found, stat, size}
use ditto.Trash.Manager as Trash
use ditto.Trash.Manager.{Names, World, DbFaults, move_to_trash}
use ditto.Tables.{
  DuplicateGroup, DuplicateFile, GroupStatus, unresolved, resolved, find_group, update_group,
  files_of,
}

-- The disk, the trash and the two tables of groups.
pub record Db : Type 0 where
  pub world : World
  pub groups : List DuplicateGroup
  pub files : List DuplicateFile

-- What the database refuses besides the statements of the trash: in the transaction, the DELETE of a
-- row by its id, and the UPDATE of the group.
pub record GroupFaults : Type 0 where
  pub group_query : Bool
  pub file_query : Bool
  pub begin : Bool
  pub delete_row : ℕ → Bool
  pub update_group : Bool
  pub commit : Bool

pub data Reason : Type 0 where
  file_missing file_modified keeper_missing keeper_modified : Reason

pub data Response : Type 0 where
  bad_request not_found internal_error no_keeper : Response
  validation_failed : List (ℕ × Reason) → Response
  deleted : List (ℕ × ℕ) → ℕ → ℕ → GroupStatus → Response

-- `info.Size() != f.Size || info.ModTime().Unix() != f.MTime`.
abbrev pub modified : File → DuplicateFile → Bool
modified g f = not (nat_beq (size g) f.size) || not (nat_beq (unix g.mtime) f.mtime)

-- What the check of one file finds. An error other than "not exist" passes.
unfoldable pub validate : Faults → Disk → Bool → DuplicateFile → Option Reason
validate φ d selected f = elim (stat φ d f.path) [
  | missing ↦ some (if selected then file_missing else keeper_missing)
  | denied ↦ none
  | found g ↦
      if modified g f then some (if selected then file_modified else keeper_modified) else none
]

abbrev pub add_failure : ℕ → Option Reason → List (ℕ × Reason) → List (ℕ × Reason)
add_failure k none fs = fs
add_failure k (some r) fs = (k, r) ∷ fs

-- The failures over all files of the group.
unfoldable pub validate_all : Faults → Disk → List ℕ → List DuplicateFile → List (ℕ × Reason)
validate_all φ d ids [] = []
validate_all φ d ids (f ∷ fs) =
    add_failure f.id (validate φ d (mem f.id ids) f) (validate_all φ d ids fs)

-- `allFiles[id]`: a missing key gives the zero record, with an empty path.
abbrev pub path_of : ℕ → List DuplicateFile → String
path_of k [] = ""
path_of k (f ∷ fs) = if nat_beq f.id k then f.path else path_of k fs

-- `h.Cfg.TrashRetentionDays` if it is positive, else 30.
abbrev pub retention : ℕ → ℕ
retention days = if ltb 0 days then days else 30

-- `int64` product of the file size and the copies beyond the first.
abbrev pub reclaimable : ℕ → ℕ → ℕ
reclaimable file_size count = (file_size * (count - 1)) % word

-- The UPDATE of the group's statistics, at the time `now`.
abbrev pub with_counts : ℕ → ℕ → ℕ → Bool → DuplicateGroup → DuplicateGroup
with_counts now remaining left solved r = record r {
  file_count = remaining;
  reclaimable_bytes = left;
  status = if solved then resolved else unresolved;
  resolved_at = if solved then some now else r.resolved_at;
  updated_at = now;
}

module _ (φ : Faults) (ψ : DbFaults) (clock : ℕ → ℕ) (n : Names) (trash_dir : String) where
  -- The loop of moves; the `i`-th stands at the time `clock i`. It stops at the first error.
  unfoldable pub move_all :
      List DuplicateFile → ℕ → String → ℕ → ℕ → World → List ℕ → World × Option (List (ℕ × ℕ))
  move_all all group hash days i w [] = (w, some [])
  move_all all group hash days i w (k ∷ ks) =
      let (w', moved) = move_to_trash φ ψ (clock i) n trash_dir w (path_of k all) group hash days in
      let rest = move_all all group hash days (i + 1) w' ks in
      elim moved [
        | Trash.err e ↦ (w', none)
        | Trash.ok t ↦ (rest.0, elim rest.1 [ none ↦ none | some ts ↦ some ((k, t) ∷ ts) ])
      ]

  -- The transaction: the rows of the moved files go, and the group's statistics are set. A statement
  -- that is refused is only logged, and the transaction is committed without it. The source
  -- counts in signed integers; the count stops at 0 here, which a request that reaches this point
  -- with more ids than files would tell apart.
  unfoldable pub settle :
      GroupFaults → ℕ → Db → World → DuplicateGroup → ℕ → List ℕ → List (ℕ × ℕ) → Db × Response
  settle χ now db w g count ids trashed =
      let remaining = count - length ids in
      let solved = leb remaining 1 in
      let status = if solved then resolved else unresolved in
      let left = if solved then 0 else reclaimable g.file_size remaining in
      if χ.begin || χ.commit then (record db { world = w }, internal_error) else (
        record {
          world = w;
          groups =
              if χ.update_group
              then db.groups
              else update_group g.id (with_counts now remaining left solved) db.groups;
          files = keep (λ f. not (mem f.id ids) || χ.delete_row f.id) db.files;
        },
        deleted trashed remaining left status,
      )

  -- The checks and the moves for a group that was found.
  unfoldable pub delete_in : GroupFaults → ℕ → ℕ → Db → DuplicateGroup → List ℕ → Db × Response
  delete_in χ now days db g ids =
      let all = files_of g.id db.files in
      let failures = validate_all φ db.world.disk ids all in
      let moves = move_all all g.id g.content_hash (retention days) 0 db.world ids in
      if leb (length all) (length (distinct ids)) then (db, no_keeper) else elim failures [
        | f ∷ fs ↦ (db, validation_failed (f ∷ fs))
        | [] ↦ elim moves.1 [
          | none ↦ (record db { world = moves.0 }, internal_error)
          | some trashed ↦ settle χ now db moves.0 g (length all) ids trashed
        ]
      ]

  -- The handler: `body` is the list of file ids, or `none` if it cannot be decoded.
  unfoldable pub delete : GroupFaults → ℕ → ℕ → Db → ℕ → Option (List ℕ) → Db × Response
  delete χ now days db group body = elim body [
    | none ↦ (db, bad_request)
    | some [] ↦ (db, bad_request)
    | some (k ∷ ks) ↦
        if χ.group_query then (db, internal_error) else elim (find_group group db.groups) [
          | none ↦ (db, not_found)
          | some g ↦
              if χ.file_query then (db, internal_error) else delete_in χ now days db g (k ∷ ks)
        ]
  ]
