-- ===== src/Tests/Pages.antt =====
-- The form that deletes copies (uiGroupDelete of internal/api/pages.go) on a group of two files.
use ditto.Prelude.{
  ℕ, ◌≡◌, ◌≤◌, refl, List, [], ◌∷◌, Option, none, some, true, String, string_key, ◌==◌,
  if◌then◌else◌, count_if,
}
use ditto.Disk.{Disk, no_faults, stat, erase}
use ditto.Trash.Manager.{move_to_trash, build_trash_path}
use ditto.Trash.Move.{move_file}
use ditto.Tables.{DuplicateFile, resolved, files_of}
use ditto.Groups.Delete.{Db, delete, move_all}
use ditto.Pages.Delete.{
  PageFaults, DeleteForm, files_deleted, check_files, selection, settle_page, delete_selected,
  ui_group_delete,
}
use ditto.Pages.Checked.{kept_at, has_id, keep_one-keeper}
use ditto.Pages.Agreement.{no_page_faults, ui_group_delete-eq-delete}
use ditto.Tests.Data.{disk, path_b, names, db_faults}
use ditto.Tests.Groups.{group, db, no_group_faults, clock, first_deleted}

abbrev parse_int : String → Option ℕ
parse_int s =
    if s == "4" then some 4 else if s == "11" then some 11 else if s == "12" then some 12 else none

-- The files in the order of the table.
abbrev in_order : List DuplicateFile → List DuplicateFile
in_order fs = fs

abbrev keep_second : DeleteForm
keep_second = record { keeper_id = "12"; delete_file_ids = [] }

second_kept :
    (ui_group_delete parse_int in_order no_faults db_faults clock names "/trash" no_page_faults 60
      30 db "4" keep_second).1
    ≡ files_deleted resolved
unfolding ui_group_delete selection delete_selected check_files settle_page move_all stat
    move_to_trash move_file build_trash_path
second_kept = refl

keep_one-keeper_example :
    (1 ≤ count_if (has_id 12) (files_of 4 db.files))
    × (count_if (kept_at no_faults db.world.disk 12) (files_of 4 db.files)
        ≡ count_if (has_id 12) (files_of 4 db.files))
keep_one-keeper_example =
    keep_one-keeper parse_int in_order no_faults db_faults clock names "/trash" (λ p fs. refl)
      no_page_faults 60 30 db "4" 4 12 group keep_second resolved refl refl refl refl second_kept

-- The second file is gone from the disk, and the first is ticked.
abbrev half_gone : Disk
half_gone = erase disk path_b

abbrev tick_first : DeleteForm
tick_first = record { keeper_id = ""; delete_file_ids = "11" ∷ [] }

abbrev half_db : Db
half_db = record db {
  world = record { disk = half_gone; trash = []; deletion_log = []; last_id = 0 };
}

-- The last copy goes to the trash.
last_copy_deleted :
    (ui_group_delete parse_int in_order no_faults db_faults clock names "/trash" no_page_faults 60
      30 half_db "4" tick_first).1
    ≡ files_deleted resolved
unfolding ui_group_delete selection delete_selected check_files settle_page move_all stat
    move_to_trash move_file build_trash_path
last_copy_deleted = refl

ui_group_delete-eq-delete_example :
    ui_group_delete parse_int in_order no_faults db_faults clock names "/trash" no_page_faults 60 30
      db "4" tick_first
    ≡ (
      (delete no_faults db_faults clock names "/trash" no_group_faults 60 30 db 4
          (some (11 ∷ []))).0,
      files_deleted resolved,
    )
ui_group_delete-eq-delete_example =
    ui_group_delete-eq-delete parse_int in_order no_faults db_faults clock names "/trash"
      (λ p fs. refl) no_group_faults 60 30 db "4" 4 11 [] group ("11" ∷ []) ((11, 1) ∷ []) 1 0
      resolved refl refl refl refl (λ j. refl) refl first_deleted

abbrev no_commit : PageFaults
no_commit = record no_page_faults { commit = true }

still_told :
    (ui_group_delete parse_int in_order no_faults db_faults clock names "/trash" no_commit 60 30 db
      "4" tick_first).1
    ≡ files_deleted resolved
unfolding ui_group_delete selection delete_selected check_files settle_page move_all stat
    move_to_trash move_file build_trash_path
still_told = refl
