-- ===== src/Groups/Ignore.antt =====
-- GroupsHandler.Ignore and Reset (internal/api/handlers/groups.go). Sorting and the JSON text of a list
-- of paths are parameters.
use ditto.Prelude.{
  ℤ, pos, ℕ, ◌+◌, List, [], ◌∷◌, ◌++◌, Option, none, some, Bool, true, false, ◌&&◌, ◌||◌, String,
  if◌then◌else◌, nat_beq, ltb, length, ◌==◌, string_key,
}
use ditto.Tables.{
  DuplicateGroup, DuplicateFile, GroupStatus, unresolved, ignored, watching, find_group,
  update_group, files_of,
}
use ditto.Scan.Manager.{Manager, update_config}

pub data Kind : Type 0 where
  hash path_pair dir : Kind

abbrev pub kind_beq : Kind → Kind → Bool
kind_beq hash hash = true
kind_beq hash path_pair = false
kind_beq hash dir = false
kind_beq path_pair hash = false
kind_beq path_pair path_pair = true
kind_beq path_pair dir = false
kind_beq dir hash = false
kind_beq dir path_pair = false
kind_beq dir dir = true

-- A row of whitelist.
pub record Entry : Type 0 where
  pub id : ℕ
  pub kind : Kind
  pub value : String
  pub added_at : ℕ
  pub expected_hash : Option String

-- The paths and workers of the configuration that Ignore reads and writes.
pub record Settings : Type 0 where
  pub scan_paths : List String
  pub exclude_paths : List String
  pub walkers : ℤ
  pub partial_hashers : ℤ
  pub full_hashers : ℤ

-- The tables; `last_id` is SQLite's counter of whitelist, and `last_rowid` what the connection
-- inserted last into any table. The configuration comes with the scan manager, or is absent.
pub record Desk : Type 0 where
  pub groups : List DuplicateGroup
  pub files : List DuplicateFile
  pub whitelist : List Entry
  pub last_id : ℕ
  pub last_rowid : ℕ
  pub config : Option (Settings × Manager)

-- What the database refuses.
pub record IgnoreFaults : Type 0 where
  pub group_query : Bool
  pub path_query : Bool
  pub insert : Bool
  pub id_query : Bool
  pub update_status : Bool

-- The body of the request: the type, as it was sent, and the path.
pub data Body : Type 0 where
  of_kind : Kind → String → Body
  other_type : Body

pub data Reply : Type 0 where
  bad_request missing_path not_found internal_error : Reply
  listed : ℕ → Kind → String → GroupStatus → Reply

abbrev pub is_entry : Kind → String → Entry → Bool
is_entry kind value e = kind_beq e.kind kind && (e.value == value)

-- SELECT id FROM whitelist WHERE type = ? AND value = ?; the variable stays 0 if there is none.
abbrev pub entry_id : Kind → String → List Entry → ℕ
entry_id kind value [] = 0
entry_id kind value (e ∷ es) = if is_entry kind value e then e.id else entry_id kind value es

abbrev pub has_entry : Kind → String → List Entry → Bool
has_entry kind value [] = false
has_entry kind value (e ∷ es) = is_entry kind value e || has_entry kind value es

-- INSERT OR IGNORE INTO whitelist: a row that is there already stays, with the last rowid.
unfoldable pub insert_entry : Desk → ℕ → Kind → String → Option String → Desk
insert_entry s now kind value expected = if has_entry kind value s.whitelist then s else record s {
  whitelist =
      s.whitelist
      ++ record {
        id = s.last_id + 1;
        kind = kind;
        value = value;
        added_at = now;
        expected_hash = expected;
      }
        ∷ [];
  last_id = s.last_id + 1;
  last_rowid = s.last_id + 1;
}

-- `res.LastInsertId()`, or the id that is looked up if that is 0.
abbrev pub reply_id : IgnoreFaults → Desk → Kind → String → ℕ
reply_id χ s kind value =
    if nat_beq s.last_rowid 0
    then (if χ.id_query then 0 else entry_id kind value s.whitelist)
    else s.last_rowid

abbrev pub paths_of : List DuplicateFile → List String
paths_of [] = []
paths_of (f ∷ fs) = f.path ∷ paths_of fs

-- The configuration that an excluded directory leaves, which goes to the scan manager. The
-- `scan.Config` literal has no CacheCheckers and no ReadDB.
unfoldable pub exclude_dir : String → Settings × Manager → Settings × Manager
exclude_dir path (c, m) =
    let excludes = c.exclude_paths ++ path ∷ [] in
    (
      record c { exclude_paths = excludes },
      update_config m c.scan_paths excludes (record {
        walkers = c.walkers;
        cache_checkers = pos 0;
        partial_hashers = c.partial_hashers;
        full_hashers = c.full_hashers;
        batch_size = 1000;
        read_db = false;
      }),
    )

abbrev pub exclude : String → Option (Settings × Manager) → Option (Settings × Manager)
exclude path none = none
exclude path (some c) = some (exclude_dir path c)

-- The value that is listed, the hash that it expects, and the new status of the group.
pub data Listing : Type 0 where
  refuse : Reply → Listing
  list : String → Option String → GroupStatus → Listing

module _ (sort : List String → List String) (json : List String → String) where
  unfoldable pub listing : IgnoreFaults → Desk → DuplicateGroup → Kind → String → Listing
  listing χ s g hash path = list g.content_hash none ignored
  listing χ s g path_pair path =
      let paths = paths_of (files_of g.id s.files) in
      if χ.path_query
      then refuse internal_error
      else if ltb (length paths) 2
      then refuse bad_request
      else list (json (sort paths)) (some g.content_hash) watching
  listing χ s g dir path = if path == "" then refuse missing_path else list path none ignored

  -- The end of Ignore: the entry, the configuration for a directory, and the group's status.
  unfoldable pub enlist :
      IgnoreFaults
      → ℕ
      → Desk
      → ℕ
      → Kind
      → String
      → String
      → Option String
      → GroupStatus
      → Desk × Reply
  enlist χ now s group kind path value expected status =
      let s' = insert_entry s now kind value expected in
      let change = λ (g : DuplicateGroup). record g {
        status = status;
        ignored_at = some now;
        updated_at = now;
      } in
      if χ.insert then (s, internal_error) else (
        record s' {
          config = if kind_beq kind dir then exclude path s.config else s.config;
          groups = if χ.update_status then s.groups else update_group group change s.groups;
        },
        listed (reply_id χ s' kind value) kind value status,
      )

  unfoldable pub ignore : IgnoreFaults → ℕ → Desk → ℕ → Option Body → Desk × Reply
  ignore χ now s group none = (s, bad_request)
  ignore χ now s group (some b) =
      if χ.group_query then (s, internal_error) else elim (find_group group s.groups) [
        | none ↦ (s, not_found)
        | some g ↦ elim b [
          | other_type ↦ (s, bad_request)
          | of_kind kind path ↦ elim (listing χ s g kind path) [
            | refuse r ↦ (s, r)
            | list value expected status ↦ enlist χ now s group kind path value expected status
          ]
        ]
      ]

-- Reset; `refused` says whether the database refuses the update.
unfoldable pub reset : Bool → ℕ → Desk → ℕ → Desk × Option GroupStatus
reset refused now s group =
    let change = λ (g : DuplicateGroup). record g {
      status = unresolved;
      ignored_at = none;
      updated_at = now;
    } in
    if refused then (s, none) else elim (find_group group s.groups) [
      | none ↦ (s, none)
      | some g ↦ (record s { groups = update_group group change s.groups }, some unresolved)
    ]
