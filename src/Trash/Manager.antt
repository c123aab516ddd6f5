-- ===== src/Trash/Manager.antt =====
-- The trash Manager (internal/trash/trash.go): MoveToTrash, Restore, PurgeAll, AutoPurge.
use ditto.Prelude.{
  ℕ, zero, suc, ◌+◌, ◌-◌, ◌*◌, ◌%◌, ◌^◌, List, [], ◌∷◌, ◌++◌, Option, none, some, Bool, true, false,
  ◌&&◌, ◌||◌, String, if◌then◌else◌, ltb, keep, nat_beq, ◌==◌, string_key,
}
use ditto.Disk.{File, Disk, Faults, missing, denied, found, stat, size, exists, erase}
use ditto.Scan.Types.{word, add64, unix}
use ditto.Trash.Move.{move_file}

-- Library functions on paths and times: filepath.Join, Base and Dir, Format("2006-01-02"), and
-- Sprintf("%d_%s").
pub record Names : Type 0 where
  pub join : String → String → String
  pub base : String → String
  pub dir : String → String
  pub date : ℕ → String
  pub stamped : ℕ → String → String

pub data Status : Type 0 where
  trashed restored purged : Status

pub data Trigger : Type 0 where
  user auto : Trigger

-- A row of the table trash.
pub record TrashItem : Type 0 where
  pub id : ℕ
  pub group_id : Option ℕ
  pub original_path : String
  pub trash_path : String
  pub file_size : ℕ
  pub content_hash : String
  pub trashed_at : ℕ
  pub expires_at : ℕ
  pub status : Status
  pub restored_at : Option ℕ
  pub purged_at : Option ℕ
  pub purge_trigger : Option Trigger

-- A row of the table deletion_log.
pub record Deletion : Type 0 where
  pub deleted_at : ℕ
  pub original_path : String
  pub file_size : ℕ
  pub content_hash : String
  pub trigger : Trigger
  pub trash_id : ℕ

-- The row that a purge of an item logs.
abbrev pub deletion : ℕ → Trigger → TrashItem → Deletion
deletion now trigger r = record {
  deleted_at = unix now;
  original_path = r.original_path;
  file_size = r.file_size;
  content_hash = r.content_hash;
  trigger = trigger;
  trash_id = r.id;
}

-- The disk and the two tables; `last_id` is SQLite's counter of the table trash.
pub record World : Type 0 where
  pub disk : Disk
  pub trash : List TrashItem
  pub deletion_log : List Deletion
  pub last_id : ℕ

-- The statements that the database refuses.
pub record DbFaults : Type 0 where
  pub query : Bool
  pub insert : Bool
  pub update_item : ℕ → Bool
  pub log : ℕ → Bool

pub data Error : Type 0 where
  stat_failed mkdir_failed move_failed insert_failed query_failed : Error
  not_trashed restore_conflict : Error

pub data Result {ℓ} (A : Type ℓ) : Type ℓ where
  ok : A → Result A
  err : Error → Result A

unfoldable pub build_trash_path : Names → String → ℕ → String → String
build_trash_path n trash_dir now original =
    n.join (n.join trash_dir (n.date now)) (n.stamped now (n.base original))

-- `now.Add(time.Duration(days) * 24 * time.Hour)`: the product is a 64-bit word, read as signed.
unfoldable pub expiry : ℕ → ℕ → ℕ
expiry now days =
    let d = (days * 86_400_000_000_000) % word in
    if ltb d (2 ^ 63) then now + d else now - (word - d)

-- `groupID == 0` is stored as NULL.
abbrev pub group_ref : ℕ → Option ℕ
group_ref zero = none
group_ref (suc g) = some (suc g)

abbrev pub has_trash_path : String → List TrashItem → Bool
has_trash_path p [] = false
has_trash_path p (r ∷ rs) = (r.trash_path == p) || has_trash_path p rs

-- The row that MoveToTrash inserts.
abbrev pub trashed_item : ℕ → ℕ → String → String → ℕ → ℕ → String → ℕ → TrashItem
trashed_item now k original p file_size group hash days = record {
  id = k;
  group_id = group_ref group;
  original_path = original;
  trash_path = p;
  file_size = file_size;
  content_hash = hash;
  trashed_at = unix now;
  expires_at = unix (expiry now days);
  status = trashed;
  restored_at = none;
  purged_at = none;
  purge_trigger = none;
}

-- Every call is given what the system refuses (`φ`), what the database refuses (`ψ`) and the time.
module _ (φ : Faults) (ψ : DbFaults) (now : ℕ) where
  -- The record of a file that has been moved to `p`; without it, the file is moved back.
  record_trashed : World → Disk → String → String → ℕ → ℕ → String → ℕ → World × Result ℕ
  record_trashed w moved original p file_size group hash days =
      if ψ.insert || has_trash_path p w.trash
      then (record w { disk = (move_file φ now moved p original).0 }, err insert_failed)
      else (
        record w {
          disk = moved;
          trash =
              w.trash ++ trashed_item now (w.last_id + 1) original p file_size group hash days ∷ [];
          last_id = w.last_id + 1;
        },
        ok (w.last_id + 1),
      )

  move_found : Names → String → World → File → String → ℕ → String → ℕ → World × Result ℕ
  unfolding record_trashed
  move_found n trash_dir w f original group hash days =
      let p = build_trash_path n trash_dir now original in
      let (moved, done) = move_file φ now w.disk original p in
      if φ.mkdir (n.dir p)
      then (w, err mkdir_failed)
      else if done
      then record_trashed w moved original p (size f) group hash days
      else (record w { disk = moved }, err move_failed)

  unfoldable pub move_to_trash : Names → String → World → String → ℕ → String → ℕ → World × Result ℕ
  unfolding move_found
  move_to_trash n trash_dir w original group hash days = elim (stat φ w.disk original) [
    | missing ↦ (w, err stat_failed)
    | denied ↦ (w, err stat_failed)
    | found f ↦ move_found n trash_dir w f original group hash days
  ]

abbrev pub is_trashed : TrashItem → Bool
is_trashed r = elim r.status [ trashed ↦ true | restored ↦ false | purged ↦ false ]

-- SELECT … WHERE id = ? AND status = 'trashed'.
abbrev pub find_trashed : ℕ → List TrashItem → Option TrashItem
find_trashed k [] = none
find_trashed k (r ∷ rs) = if nat_beq r.id k && is_trashed r then some r else find_trashed k rs

-- UPDATE trash … WHERE id = ?.
abbrev pub update_item : ℕ → (TrashItem → TrashItem) → List TrashItem → List TrashItem
update_item k f [] = []
update_item k f (r ∷ rs) = (if nat_beq r.id k then f r else r) ∷ update_item k f rs

abbrev pub set_restored : ℕ → TrashItem → TrashItem
set_restored now r = record r { status = restored; restored_at = some (unix now) }

abbrev pub set_purged : ℕ → Trigger → TrashItem → TrashItem
set_purged now trigger r = record r {
  status = purged;
  purged_at = some (unix now);
  purge_trigger = some trigger;
}

-- `os.Remove` of a file that is gone is a success.
abbrev pub stuck : Faults → Disk → String → Bool
stuck φ d p = φ.remove p && exists (d p)

-- status = 'trashed' AND expires_at < now.
abbrev pub is_expired : ℕ → TrashItem → Bool
is_expired now r = is_trashed r && ltb r.expires_at (unix now)

module _ (φ : Faults) (ψ : DbFaults) (now : ℕ) where
  unfoldable pub restore_item : Names → World → TrashItem → World × Result (Unit {0})
  restore_item n w r = elim (stat φ w.disk r.original_path) [
    | found _ ↦ (w, err restore_conflict)
    | _ ↦
        let (moved, done) = move_file φ now w.disk r.trash_path r.original_path in
        let rows =
          if ψ.update_item r.id then w.trash else update_item r.id (set_restored now) w.trash in
        if φ.mkdir (n.dir r.original_path)
        then (w, err mkdir_failed)
        else if done
        then (record w { disk = moved; trash = rows }, ok tt)
        else (record w { disk = moved }, err move_failed)
  ]

  unfoldable pub restore : Names → World → ℕ → World × Result (Unit {0})
  unfolding restore_item
  restore n w k = if ψ.query then (w, err query_failed) else elim (find_trashed k w.trash) [
    | none ↦ (w, err not_trashed)
    | some r ↦ restore_item n w r
  ]

  -- One item of purgeRows whose file is removed: the log, and the row.
  unfoldable pub purge_item : Trigger → World → TrashItem → World
  purge_item trigger w r = record w {
    disk = erase w.disk r.trash_path;
    deletion_log =
        if ψ.log r.id then w.deletion_log else w.deletion_log ++ deletion now trigger r ∷ [];
    trash =
        if ψ.update_item r.id then w.trash else update_item r.id (set_purged now trigger) w.trash;
  }

  -- The loop of purgeRows; the context is found done after `live` items.
  unfoldable pub purge_items : Trigger → ℕ → World → ℕ → ℕ → List TrashItem → World × ℕ × ℕ
  purge_items trigger zero w count bytes items = (w, count, bytes)
  purge_items trigger (suc live) w count bytes [] = (w, count, bytes)
  purge_items trigger (suc live) w count bytes (r ∷ items) =
      let skipped = purge_items trigger live w count bytes items in
      let removed =
        purge_items trigger live (purge_item trigger w r) (add64 count 1) (add64 bytes r.file_size)
          items in
      if stuck φ w.disk r.trash_path then skipped else removed

  unfoldable pub purge_all : ℕ → World → World × Result (ℕ × ℕ)
  purge_all live w =
      let (w', count, bytes) = purge_items user live w 0 0 (keep is_trashed w.trash) in
      if ψ.query then (w, err query_failed) else (w', ok (count, bytes))

  unfoldable pub auto_purge : ℕ → World → World × Result (Unit {0})
  auto_purge live w =
      let (w', count, bytes) = purge_items auto live w 0 0 (keep (is_expired now) w.trash) in
      if ψ.query then (w, err query_failed) else (w', ok tt)
