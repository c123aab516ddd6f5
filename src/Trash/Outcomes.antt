-- ===== src/Trash/Outcomes.antt =====
-- What success and failure of a move, of MoveToTrash and Restore, and a purge, mean
-- (internal/trash/trash.go).
use ditto.Prelude.{
  ℕ, ◌≤◌, ◌≡◌, none, some, true, false, String, length, ◌==◌, string_key, arith, ap, inl, inr,
  Bool-cases, Option-cases,
}
use text.Mathlib.TextEquality.{eq_iff}
use ditto.Disk.{File, Disk, Faults, stat, size}
use ditto.Trash.Move.{move_file, Holds, move_file-src-dst, move_file-other}
use ditto.Trash.Manager.{
  Names, TrashItem, World, DbFaults, Error, ok, err, build_trash_path, move_to_trash, restore,
  restore_item, is_trashed, is_expired, find_trashed, purge_all, auto_purge, set_purged, user, auto,
}
use ditto.Trash.Safety.{Recorded, move_to_trash_lem, restore_lem}
use ditto.Trash.Purge.{row_of, IsKeyed, purge-kept, purge-purged}

module _ (φ : Faults) (now : ℕ) (d : Disk) (src dst : String) (f : File) where
  -- A move between two different paths that returns no error takes the content to `dst` and leaves
  -- nothing at `src`.
  pub move_file-done :
      (src == dst) ≡ false
      → d src ≡ some f
      → (move_file φ now d src dst).1 ≡ true
      → Holds (move_file φ now d src dst).0 dst f.content
        × ((move_file φ now d src dst).0 src ≡ none)
  move_file-done ne at h = (move_file-src-dst φ now d src dst f ne at).0 h

  -- A move between two different paths that returns an error leaves the file at `src` as it was.
  pub move_file-failed :
      (src == dst) ≡ false
      → d src ≡ some f
      → (move_file φ now d src dst).1 ≡ false
      → (move_file φ now d src dst).0 src ≡ some f
  move_file-failed ne at h = (move_file-src-dst φ now d src dst f ne at).1 h

module _ (φ : Faults) (ψ : DbFaults) (now : ℕ) (n : Names) (trash_dir : String) (w : World)
    (original : String) (f : File) (group : ℕ) (hash : String) (days : ℕ) where
  -- If MoveToTrash of a file returns the id `k`, nothing is left at the old path, its content is at
  -- its path in the trash, and the table has one row more: it has the id `k`, the two paths, the
  -- size and the status trashed. (The two paths differ.)
  pub move_to_trash-ok :
      (k : ℕ)
      → (original == build_trash_path n trash_dir now original) ≡ false
      → w.disk original ≡ some f
      → (move_to_trash φ ψ now n trash_dir w original group hash days).1 ≡ ok k
      → ((move_to_trash φ ψ now n trash_dir w original group hash days).0.disk original ≡ none)
        × Holds
            (move_to_trash φ ψ now n trash_dir w original group hash days).0.disk
            (build_trash_path n trash_dir now original)
            f.content
        × Recorded w
            (move_to_trash φ ψ now n trash_dir w original group hash days).0
            k
            original
            (build_trash_path n trash_dir now original)
            (size f)
  move_to_trash-ok k ne at h =
      (move_to_trash_lem φ ψ now n trash_dir w original f group hash days ne at).0 k h

module _ (φ : Faults) (ψ : DbFaults) (now : ℕ) (n : Names) (w : World) (k : ℕ) where
  restore_item-keeps :
      (r : TrashItem) (p : String) (f : File)
      → w.disk p ≡ some f
      → φ.stat p ≡ false
      → (p == r.trash_path) ≡ false
      → (restore_item φ ψ now n w r).0.disk p ≡ some f
  unfolding restore_item stat
  restore_item-keeps r p f at seen apart = elim (Bool-cases (p == r.original_path)) [
    | inl here ↦
        let same : p ≡ r.original_path = (eq_iff p r.original_path).0 here in
        ground (arith, ap w.disk same, ap φ.stat same)
    | inr other ↦
        ground (arith, move_file-other φ now w.disk r.trash_path r.original_path p apart other)
  ]

  -- Whatever is refused and whatever Restore answers, each file on the disk that os.Stat may see is as it
  -- was, unless it is the file in the trash that the id stands for: no file is overwritten.
  pub restore-keeps :
      (p : String) (f : File)
      → w.disk p ≡ some f
      → φ.stat p ≡ false
      → ((r : TrashItem) → find_trashed k w.trash ≡ some r → (p == r.trash_path) ≡ false)
      → (restore φ ψ now n w k).0.disk p ≡ some f
  unfolding restore
  restore-keeps p f at seen apart = elim (Option-cases (find_trashed k w.trash)) [
    | inl unknown ↦ ground arith
    | inr (r, known) ↦ ground (arith, restore_item-keeps r p f at seen (apart r known))
  ]

module _ (φ : Faults) (ψ : DbFaults) (now : ℕ) (n : Names) (w : World) (k : ℕ) (r : TrashItem) where
  -- If Restore succeeds, the content of the file in the trash is at the original path, and nothing
  -- is left in the trash. (The two paths differ.)
  pub restore-ok :
      (f : File)
      → ψ.query ≡ false
      → find_trashed k w.trash ≡ some r
      → w.disk r.trash_path ≡ some f
      → (r.trash_path == r.original_path) ≡ false
      → (restore φ ψ now n w k).1 ≡ ok tt
      → Holds (restore φ ψ now n w k).0.disk r.original_path f.content
        × ((restore φ ψ now n w k).0.disk r.trash_path ≡ none)
  restore-ok f q h at ne done = (((restore_lem φ ψ now n w k q).1 r h).1 f at ne).0 done

  -- If Restore fails, the file is still in the trash as it was. (The two paths differ.)
  pub restore-failed :
      (f : File) (e : Error)
      → ψ.query ≡ false
      → find_trashed k w.trash ≡ some r
      → w.disk r.trash_path ≡ some f
      → (r.trash_path == r.original_path) ≡ false
      → (restore φ ψ now n w k).1 ≡ err e
      → (restore φ ψ now n w k).0.disk r.trash_path ≡ some f
  restore-failed f e q h at ne failed = (((restore_lem φ ψ now n w k q).1 r h).1 f at ne).1 e failed

module _ (φ : Faults) (ψ : DbFaults) (now : ℕ) (live : ℕ) (w : World) (k : ℕ) (r : TrashItem) where
  -- Whatever is refused and whenever the context is done, PurgeAll leaves a row that is not in the
  -- trash as it was, if ids are unique.
  pub purge_all-kept :
      IsKeyed w.trash
      → row_of k w.trash ≡ some r
      → is_trashed r ≡ false
      → row_of k (purge_all φ ψ now live w).0.trash ≡ some r
  purge_all-kept u h kept = (purge-kept φ ψ now live w k r u h).0 kept

  -- Whatever is refused and whenever the context is done, AutoPurge leaves a row that is not in the
  -- trash or has not expired as it was, if ids are unique.
  pub auto_purge-kept :
      IsKeyed w.trash
      → row_of k w.trash ≡ some r
      → is_expired now r ≡ false
      → row_of k (auto_purge φ ψ now live w).0.trash ≡ some r
  auto_purge-kept u h kept = (purge-kept φ ψ now live w k r u h).1 kept

  -- If the system removes and the database updates, and the context lasts, PurgeAll marks every row
  -- in the trash as purged by the user, if ids are unique.
  pub purge_all-purged :
      IsKeyed w.trash
      → row_of k w.trash ≡ some r
      → length w.trash ≤ live
      → ψ.query ≡ false
      → ((p : String) → φ.remove p ≡ false)
      → ((j : ℕ) → ψ.update_item j ≡ false)
      → is_trashed r ≡ true
      → row_of k (purge_all φ ψ now live w).0.trash ≡ some (set_purged now user r)
  purge_all-purged u h len q free kept sel =
      (purge-purged φ ψ now live w k r u h len q free kept).0 sel

  -- If the system removes and the database updates, and the context lasts, AutoPurge marks every
  -- row in the trash that has expired as purged automatically, if ids are unique.
  pub auto_purge-purged :
      IsKeyed w.trash
      → row_of k w.trash ≡ some r
      → length w.trash ≤ live
      → ψ.query ≡ false
      → ((p : String) → φ.remove p ≡ false)
      → ((j : ℕ) → ψ.update_item j ≡ false)
      → is_expired now r ≡ true
      → row_of k (auto_purge φ ψ now live w).0.trash ≡ some (set_purged now auto r)
  auto_purge-purged u h len q free kept sel =
      (purge-purged φ ψ now live w k r u h len q free kept).1 sel
