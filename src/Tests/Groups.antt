-- ===== src/Tests/Groups.antt =====
-- GroupsHandler.Delete (internal/api/handlers/groups.go) on a group of three files.
use ditto.Prelude.{
  ℕ, ◌≡◌, ◌≤◌, refl, [], ◌∷◌, none, some, String, false, length, string_key, ◌==◌, if◌then◌else◌,
  leb, mem, Member,
}
use ditto.Disk.{no_faults, stat}
use ditto.Trash.Manager.{move_to_trash, build_trash_path}
use ditto.Trash.Move.{move_file}
use ditto.Tables.{DuplicateGroup, DuplicateFile, image, unresolved, resolved, files_of, find_group}
use ditto.Groups.Delete.{
  Db, GroupFaults, deleted, no_keeper, delete, delete_in, validate_all, validate, move_all, settle,
  reclaimable,
}
use ditto.Groups.Safety.{IsUnchanged, delete-keeper}
use ditto.Groups.Counts.{delete-counts}
use ditto.Tests.Data.{disk, path_a, path_b, names, db_faults}

abbrev pub group : DuplicateGroup
group = record {
  id = 4;
  content_hash = "one_two";
  file_size = 2;
  file_count = 2;
  reclaimable_bytes = 2;
  file_type = image;
  status = unresolved;
  ignored_at = none;
  resolved_at = none;
  first_seen_scan_id = 1;
  last_seen_scan_id = 1;
  created_at = 10;
  updated_at = 10;
}

abbrev pub row : String → ℕ → DuplicateFile
row p k = record {
  id = k;
  group_id = 4;
  scan_id = 1;
  path = p;
  size = 2;
  mtime = 5;
  file_type = image;
}

abbrev pub db : Db
db = record {
  world = record { disk = disk; trash = []; deletion_log = []; last_id = 0 };
  groups = group ∷ [];
  files = row path_a 11 ∷ row path_b 12 ∷ [];
}

abbrev pub no_group_faults : GroupFaults
no_group_faults = record {
  group_query = false;
  file_query = false;
  begin = false;
  delete_row = λ _. false;
  update_group = false;
  commit = false;
}

abbrev pub clock : ℕ → ℕ
clock i = 17

pub first_deleted :
    (delete no_faults db_faults clock names "/trash" no_group_faults 60 30 db 4 (some (11 ∷ []))).1
    ≡ deleted ((11, 1) ∷ []) 1 0 resolved
unfolding delete delete_in settle move_all validate_all validate stat move_to_trash move_file
    build_trash_path
first_deleted = refl

delete-keeper_example :
    (f : DuplicateFile) × Member f (files_of 4 db.files)
    × (mem f.id (11 ∷ []) ≡ false)
    × IsUnchanged no_faults db.world.disk f
delete-keeper_example =
    delete-keeper no_faults db_faults clock names "/trash" no_group_faults 60 30 db 4 group
      (11 ∷ []) ((11, 1) ∷ []) 1 0 resolved refl (refl, (refl, tt)) first_deleted

delete-counts_example :
    (1
      ≡ length (
          files_of 4
            (delete no_faults db_faults clock names "/trash" no_group_faults 60 30 db 4
              (some (11 ∷ []))).0.files))
    × (1 ≤ 1)
    × (resolved ≡ (if leb 1 1 then resolved else unresolved))
    × (0 ≡ (if leb 1 1 then 0 else reclaimable 2 1))
    × (r : DuplicateGroup) × (find_group 4
          (delete no_faults db_faults clock names "/trash" no_group_faults 60 30 db 4
            (some (11 ∷ []))).0.groups
        ≡ some r)
    × (r.file_count ≡ 1)
    × (r.reclaimable_bytes ≡ 0)
    × (r.status ≡ resolved)
delete-counts_example =
    delete-counts no_faults db_faults clock names "/trash" no_group_faults 60 30 db 4 group
      (11 ∷ []) ((11, 1) ∷ []) 1 0 resolved refl (refl, (refl, tt)) (refl, tt) (refl, tt)
      (λ k. refl) refl first_deleted

all_selected :
    (delete no_faults db_faults clock names "/trash" no_group_faults 60 30 db 4
      (some (11 ∷ 12 ∷ []))).1
    ≡ no_keeper
unfolding delete delete_in settle move_all validate_all validate stat move_to_trash move_file
    build_trash_path
all_selected = refl

differ : (path_a == build_trash_path names "/trash" 17 path_a) ≡ false
unfolding build_trash_path
differ = refl
