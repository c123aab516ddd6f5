-- ===== src/Tests/Trash.antt =====
-- The trash (internal/trash/trash.go) with one file and a few rows.
use ditto.Prelude.{
  ℤ, pos, keep, Option, if◌then◌else◌, ℕ, ◌≡◌, ◌⊎◌, refl, List, [], ◌∷◌, none, some, String, true,
  false, length, string_key, ◌==◌, ap, sym,
}
use ditto.Disk.{Faults, Outcome, stat, no_faults}
use ditto.Trash.Move.{move_file, Holds}
use ditto.Trash.Manager.{
  is_trashed, TrashItem, Status, World, ok, err, build_trash_path, move_to_trash, restore, trashed,
  find_trashed, restored, move_failed,
}
use ditto.Trash.Handlers.{
  Reply, page, list, list_items, sum_sizes, parse_pagination, answer_restore,
}
use ditto.Trash.Safety.{Recorded, move_to_trash-content}
use ditto.Trash.Purge.{IsKeyed}
use ditto.Trash.Outcomes.{move_to_trash-ok, restore-keeps}
use ditto.Tests.Data.{disk, path_a, path_b, path_c, one_two, names, db_faults}

-- The rename crosses devices.
abbrev pub copying : Faults
copying = record no_faults { rename = λ _ _. Outcome.crosses_devices }

-- And the source cannot be removed.
abbrev stuck_source : Faults
stuck_source = record copying { remove = λ p. p == path_a }

moved : (move_file copying 9 disk path_a "/t").1 ≡ true
unfolding move_file
moved = refl

not_moved : (move_file stuck_source 9 disk path_a "/t").1 ≡ false
unfolding move_file
not_moved = refl

abbrev world : World
world = record { disk = disk; trash = []; deletion_log = []; last_id = 0 }

paths_differ : (path_a == build_trash_path names "/trash" 17 path_a) ≡ false
unfolding build_trash_path
paths_differ = refl

move_to_trash-content_example :
    Holds
      (move_to_trash stuck_source db_faults 17 names "/trash" world path_a 1 "one_two" 30).0.disk
      path_a
      one_two.content
    ⊎ Holds
        (move_to_trash stuck_source db_faults 17 names "/trash" world path_a 1 "one_two" 30).0.disk
        (build_trash_path names "/trash" 17 path_a)
        one_two.content
move_to_trash-content_example =
    move_to_trash-content stuck_source db_faults 17 names "/trash" world path_a one_two 1 "one_two"
      30 paths_differ refl

recorded : (move_to_trash copying db_faults 17 names "/trash" world path_a 1 "one_two" 30).1 ≡ ok 1
unfolding move_to_trash move_file build_trash_path stat
recorded = refl

move_to_trash-ok_example :
    ((move_to_trash copying db_faults 17 names "/trash" world path_a 1 "one_two" 30).0.disk path_a
      ≡ none)
    × Holds
        (move_to_trash copying db_faults 17 names "/trash" world path_a 1 "one_two" 30).0.disk
        (build_trash_path names "/trash" 17 path_a)
        one_two.content
    × Recorded world
        (move_to_trash copying db_faults 17 names "/trash" world path_a 1 "one_two" 30).0
        1
        path_a
        (build_trash_path names "/trash" 17 path_a)
        2
move_to_trash-ok_example =
    move_to_trash-ok copying db_faults 17 names "/trash" world path_a one_two 1 "one_two" 30 1
      paths_differ refl recorded

-- One row in the trash, one that is restored, and one in the trash that has not expired.
abbrev item : ℕ → String → Status → ℕ → TrashItem
item k p s expires = record {
  id = k;
  group_id = some 1;
  original_path = p;
  trash_path = path_c;
  file_size = 2;
  content_hash = "other";
  trashed_at = 1;
  expires_at = expires;
  status = s;
  restored_at = none;
  purged_at = none;
  purge_trigger = none;
}

abbrev pub full : World
full = record world {
  trash =
      item 1 "/photos/d.jpg" trashed 5
      ∷ item 2 "/photos/e.jpg" restored 5
      ∷ item 3 path_b trashed 500
      ∷ [];
  last_id = 3;
}

abbrev path_in : Option TrashItem → String
path_in none = ""
path_in (some r) = r.trash_path

-- The third item's old place is taken.
other_path : (r : TrashItem) → find_trashed 3 full.trash ≡ some r → (path_b == r.trash_path) ≡ false
other_path r at = ap (λ t. path_b == path_in t) (sym at)

restore-keeps_example : (restore copying db_faults 17 names full 3).0.disk path_b ≡ some one_two
restore-keeps_example =
    restore-keeps copying db_faults 17 names full 3 path_b one_two refl refl other_path

restored_ok : (restore copying db_faults 17 names full 1).1 ≡ ok tt
unfolding restore move_file stat
restored_ok = refl

abbrev refusing : Faults
refusing = record no_faults { rename = λ _ _. Outcome.refused }

restore_refused : (restore refusing db_faults 17 names full 1).1 ≡ err move_failed
unfolding restore move_file stat
restore_refused = refl

keyed : IsKeyed full.trash
keyed = (refl, (refl, (refl, tt)))

-- The only id that the requests name.
abbrev parse_one : String → Option ℕ
parse_one s = if s == "1" then some 1 else none

answered :
    (answer_restore parse_one copying db_faults 17 names false full "1").1
    ≡ Reply.restored 1 "/photos/d.jpg"
unfolding answer_restore restore move_file stat
answered = refl

-- Every number is read as 201, which is too many for a page.
abbrev too_many : String → Option ℤ
too_many s = some (pos 201)

abbrev active_items : List TrashItem
active_items = keep is_trashed full.trash

listed_all :
    list too_many (λ rs. rs) false false 17 full "201" ""
    ≡ page (list_items 17 active_items) (length active_items) (sum_sizes active_items) 50 0
unfolding list parse_pagination
listed_all = refl
