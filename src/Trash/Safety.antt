-- ===== src/Trash/Safety.antt =====
-- MoveToTrash and Restore (internal/trash/trash.go) lose no file and report what they did.
use ditto.Prelude.{
  ℕ, ◌+◌, ◌<◌, ◌≤◌, ◌≡◌, ◌⊎◌, refl, inl, inr, List, [], ◌∷◌, ◌++◌, none, some, false, String, arith,
  ◌==◌, string_key, Option-cases,
}
use text.Mathlib.TextEquality.{eq_iff}
use ditto.Disk.{File, Disk, Faults, found, stat, size}
use ditto.Trash.Move.{move_file, Holds, move_file-src-dst}
use ditto.Trash.Manager.{
  Names, TrashItem, World, DbFaults, Error, Result, ok, err, build_trash_path, move_to_trash,
  restore, find_trashed, trashed_item, trashed, restore_conflict, not_trashed, stat_failed,
}

Holds-cases :
    (d : Disk) (p : String) (c : List ℕ)
    → Holds d p c
    → (g : File) × (d p ≡ some g) × (g.content ≡ c)
Holds-cases d p c h = elim (Option-cases (d p)) [
  | inl e ↦ absurd (ground arith)
  | inr (g, e) ↦ (g, e, ground arith)
]

==-sym_false : (p q : String) → (p == q) ≡ false → (q == p) ≡ false
==-sym_false p q h = ground (arith, eq_iff p q, eq_iff q p)

-- The table trash of `w'` is that of `w` with one row more, of the given content.
abbrev pub Recorded : World → World → ℕ → String → String → ℕ → Type 0
Recorded w w' k original p n =
    (r : TrashItem) × (w'.trash ≡ w.trash ++ r ∷ [])
    × (r.id ≡ k)
    × (r.status ≡ trashed)
    × (r.original_path ≡ original)
    × (r.trash_path ≡ p)
    × (r.file_size ≡ n)

module _ (φ : Faults) (ψ : DbFaults) (now : ℕ) (n : Names) (trash_dir : String) (w : World)
    (original : String) where
  abbrev target : String
  target = build_trash_path n trash_dir now original

  -- A file in the trash that is moved back: its content is at one of the two paths.
  rolled_back :
      (d : Disk) (p : String) (c : List ℕ)
      → (p == original) ≡ false
      → Holds d p c
      → Holds (move_file φ now d p original).0 original c
        ⊎ Holds (move_file φ now d p original).0 p c
  rolled_back d p c ne h =
      let (g, at, same) = Holds-cases d p c h in
      let (moved, stays) = move_file-src-dst φ now d p original g ne at in ground arith

  -- Whatever the system and the database refuse, after MoveToTrash the content of the file is at
  -- its old path or at its path in the trash, if the two paths differ.
  pub move_to_trash-content :
      (f : File) (group : ℕ) (hash : String) (days : ℕ)
      → (original == target) ≡ false
      → w.disk original ≡ some f
      → Holds
          (move_to_trash φ ψ now n trash_dir w original group hash days).0.disk
          original
          f.content
        ⊎ Holds
            (move_to_trash φ ψ now n trash_dir w original group hash days).0.disk
            target
            f.content
  unfolding move_to_trash stat
  move_to_trash-content f group hash days ne at =
      let moved = (move_file φ now w.disk original target).0 in
      ground (
        arith,
        move_file-src-dst φ now w.disk original target f ne at,
        rolled_back moved target f.content (==-sym_false original target ne),
      )

  -- If MoveToTrash succeeds, nothing is left at the old path, the content is at a path in the trash
  -- which the one new row names, with the size and the status trashed; if it fails, there is no
  -- new row.
  pub move_to_trash_lem :
      (f : File) (group : ℕ) (hash : String) (days : ℕ)
      → (original == target) ≡ false
      → w.disk original ≡ some f
      → ((k : ℕ)
          → (move_to_trash φ ψ now n trash_dir w original group hash days).1 ≡ ok k
          → ((move_to_trash φ ψ now n trash_dir w original group hash days).0.disk original ≡ none)
            × Holds
                (move_to_trash φ ψ now n trash_dir w original group hash days).0.disk
                target
                f.content
            × Recorded w
                (move_to_trash φ ψ now n trash_dir w original group hash days).0
                k
                original
                target
                (size f))
        × ((e : Error)
            → (move_to_trash φ ψ now n trash_dir w original group hash days).1 ≡ err e
            → (move_to_trash φ ψ now n trash_dir w original group hash days).0.trash ≡ w.trash)
  unfolding move_to_trash stat
  move_to_trash_lem f group hash days ne at = (
    λ k h. (
      ground (arith, move_file-src-dst φ now w.disk original target f ne at),
      ground (arith, move_file-src-dst φ now w.disk original target f ne at),
      (
        trashed_item now (w.last_id + 1) original target (size f) group hash days,
        ground arith,
        ground arith,
        ground arith,
        ground arith,
        ground arith,
        ground arith,
      ),
    ),
    λ e h. ground arith,
  )

-- MoveToTrash of a path at which `os.Stat` finds nothing fails; a success leaves nothing there.
pub move_to_trash-missing :
    (φ : Faults) (ψ : DbFaults) (now : ℕ) (n : Names) (trash_dir : String) (w : World)
    (original : String) (group : ℕ) (hash : String) (days : ℕ)
    → w.disk original ≡ none
    → (move_to_trash φ ψ now n trash_dir w original group hash days).1 ≡ err stat_failed
unfolding move_to_trash stat
move_to_trash-missing φ ψ now n trash_dir w original group hash days h = ground arith

pub move_to_trash-gone :
    (φ : Faults) (ψ : DbFaults) (now : ℕ) (n : Names) (trash_dir : String) (w : World)
    (original : String) (group : ℕ) (hash : String) (days k : ℕ)
    → (original == build_trash_path n trash_dir now original) ≡ false
    → (move_to_trash φ ψ now n trash_dir w original group hash days).1 ≡ ok k
    → (move_to_trash φ ψ now n trash_dir w original group hash days).0.disk original ≡ none
move_to_trash-gone φ ψ now n trash_dir w original group hash days k ne h =
    elim (Option-cases (w.disk original)) [
      | inl e ↦ absurd (cc (move_to_trash-missing φ ψ now n trash_dir w original group hash days e))
      | inr (f, e) ↦
          ((move_to_trash_lem φ ψ now n trash_dir w original f group hash days ne e).0 k h).0
    ]

pub Result-cases {ℓ} :
    {A : Type ℓ} (r : Result A) → ((a : A) × (r ≡ ok a)) ⊎ ((e : Error) × (r ≡ err e))
Result-cases (ok a) = inl (a, refl)
Result-cases (err e) = inr (e, refl)

-- The rows' ids do not exceed SQLite's counter, as AUTOINCREMENT sees to.
abbrev pub IsNumbered : ℕ → List TrashItem → Type 0
IsNumbered n [] = Unit
IsNumbered n (r ∷ rs) = (r.id ≤ n) × IsNumbered n rs

find_trashed-append :
    (n : ℕ) (rs : List TrashItem) (r : TrashItem)
    → IsNumbered n rs
    → n < r.id
    → r.status ≡ trashed
    → find_trashed r.id (rs ++ r ∷ []) ≡ some r
find_trashed-append n [] r h lt st = ground arith
find_trashed-append n (s ∷ rs) r h lt st = ground (arith, find_trashed-append n rs r h.1 lt st)

module _ (φ : Faults) (ψ : DbFaults) (now : ℕ) (n : Names) (w : World) (k : ℕ) where
  -- Restore: with no such item in the trash, or with a file at the original path that the system
  -- lets it see, nothing changes and the error says so; else success means that the content is at
  -- the original path and nothing is left in the trash, and an error that the file is still there.
  pub restore_lem :
      ψ.query ≡ false
      → (find_trashed k w.trash ≡ none → restore φ ψ now n w k ≡ (w, err not_trashed))
        × ((r : TrashItem)
            → find_trashed k w.trash ≡ some r
            → ((g : File)
                → stat φ w.disk r.original_path ≡ found g
                → restore φ ψ now n w k ≡ (w, err restore_conflict))
              × ((f : File)
                  → w.disk r.trash_path ≡ some f
                  → (r.trash_path == r.original_path) ≡ false
                  → ((restore φ ψ now n w k).1 ≡ ok tt
                      → Holds (restore φ ψ now n w k).0.disk r.original_path f.content
                        × ((restore φ ψ now n w k).0.disk r.trash_path ≡ none))
                    × ((e : Error)
                        → (restore φ ψ now n w k).1 ≡ err e
                        → (restore φ ψ now n w k).0.disk r.trash_path ≡ some f)))
  unfolding restore
  restore_lem q = (
    λ h. ground arith,
    λ r h. (
      λ g s. ground arith,
      λ f at ne. (
        λ done. (
          ground (arith, move_file-src-dst φ now w.disk r.trash_path r.original_path f ne at),
          ground (arith, move_file-src-dst φ now w.disk r.trash_path r.original_path f ne at),
        ),
        λ e failed.
            ground (arith, move_file-src-dst φ now w.disk r.trash_path r.original_path f ne at),
      ),
    ),
  )
