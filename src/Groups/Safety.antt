-- ===== src/Groups/Safety.antt =====
-- What GroupsHandler.Delete (internal/api/handlers/groups.go) guarantees.
use ditto.Prelude.{
  ℕ, suc, ◌+◌, ◌-◌, ◌≡◌, ◌≢◌, ◌⊎◌, refl, inl, inr, List, [], ◌∷◌, Option, none, some, Bool, false,
  not, ◌||◌, String, arith, if◌then◌else◌, leb, keep, length, ◌==◌, string_key, mem, distinct,
  Bool-cases, Option-cases, Member, AllDifferent, AllIn, mem-distinct, length-le_of_AllIn, ap, sym,
  ◌∙◌,
}
use ditto.Scan.Types.{unix}
use ditto.Disk.{File, Disk, Faults, denied, found, stat, size}
use ditto.Trash.Manager.{Names, World, DbFaults, move_to_trash, build_trash_path}
use ditto.Trash.Safety.{move_to_trash-missing, move_to_trash-gone, Result-cases}
use ditto.Tables.{
  DuplicateGroup, DuplicateFile, GroupStatus, unresolved, resolved, find_group, update_group,
  files_of,
}
use ditto.Groups.Delete.{
  Db, GroupFaults, Response, bad_request, not_found, internal_error, no_keeper, validation_failed,
  deleted, validate, validate_all, path_of, move_all, settle, retention, delete_in, delete,
  reclaimable, with_counts,
}

abbrev pub file_ids : List DuplicateFile → List ℕ
file_ids [] = []
file_ids (f ∷ fs) = f.id ∷ file_ids fs

-- The file is on the disk as the last scan recorded it, as far as the system lets one see.
abbrev pub IsUnchanged : Faults → Disk → DuplicateFile → Type 0
IsUnchanged φ d f =
    (stat φ d f.path ≡ denied)
    ⊎ ((h : File) × (stat φ d f.path ≡ found h) × (size h ≡ f.size) × (unix h.mtime ≡ f.mtime))

-- The responses that come before a file is moved.
abbrev pub IsRefusal : Response → Type 0
IsRefusal bad_request = Unit
IsRefusal not_found = Unit
IsRefusal no_keeper = Unit
IsRefusal (validation_failed fs) = Unit
IsRefusal internal_error = ⊥
IsRefusal (deleted ts c l s) = ⊥

keeper_or_all :
    (js : List ℕ) (fs : List DuplicateFile)
    → AllIn (file_ids fs) js ⊎ ((f : DuplicateFile) × Member f fs × (mem f.id js ≡ false))
keeper_or_all js [] = inl tt
keeper_or_all js (f ∷ fs) = elim (Bool-cases (mem f.id js)) [
  | inr out ↦ inr (f, inl refl, out)
  | inl in_set ↦ elim (keeper_or_all js fs) [
    | inl all ↦ inl (in_set, all)
    | inr (g, at, out) ↦ inr (g, inr at, out)
  ]
]

pub length-file_ids : (fs : List DuplicateFile) → length (file_ids fs) ≡ length fs
length-file_ids [] = refl
length-file_ids (f ∷ fs) = ap suc (length-file_ids fs)

-- More files than selected ids leave a file that is not selected.
keeper_exists :
    (js : List ℕ) (fs : List DuplicateFile)
    → AllDifferent (file_ids fs)
    → leb (length fs) (length (distinct js)) ≡ false
    → (f : DuplicateFile) × Member f fs × (mem f.id js ≡ false)
keeper_exists js fs u few = elim (keeper_or_all (distinct js) fs) [
  | inr (f, at, out) ↦ (f, at, sym (mem-distinct f.id js) ∙ out)
  | inl all ↦
      absurd
        (ground (arith, length-le_of_AllIn (file_ids fs) (distinct js) u all, length-file_ids fs))
]

validate-none :
    (φ : Faults) (d : Disk) (selected : Bool) (f : DuplicateFile)
    → validate φ d selected f ≡ none
    → IsUnchanged φ d f
unfolding validate stat
validate-none φ d selected f h = elim (Bool-cases (φ.stat f.path)) [
  | inl hidden ↦ inl (ground arith)
  | inr seen ↦ elim (Option-cases (d f.path)) [
    | inl gone ↦ absurd (ground arith)
    | inr (g, at) ↦ inr (g, ground arith, ground arith, ground arith)
  ]
]

validate_all-nil :
    (φ : Faults) (d : Disk) (js : List ℕ) (fs : List DuplicateFile) (f : DuplicateFile)
    → validate_all φ d js fs ≡ []
    → Member f fs
    → validate φ d (mem f.id js) f ≡ none
unfolding validate_all
validate_all-nil φ d js [] f h m = absurd m
validate_all-nil φ d js (g ∷ fs) f h m = elim (Option-cases (validate φ d (mem g.id js) g)) [
  | inr (r, bad) ↦ absurd (ground arith)
  | inl good ↦ elim m [
    | inl e ↦ rw e good
    | inr m' ↦ validate_all-nil φ d js fs f (ground arith) m'
  ]
]

-- Where no DELETE is refused, the rows of the ids go.
pub keep-unrefused :
    (refused : ℕ → Bool)
    → ((k : ℕ) → refused k ≡ false)
    → (ids : List ℕ) (fs : List DuplicateFile)
    → keep (λ f. not (mem f.id ids) || refused f.id) fs ≡ keep (λ f. not (mem f.id ids)) fs
keep-unrefused refused none_refused ids [] = refl
keep-unrefused refused none_refused ids (f ∷ fs) =
    ground (arith, none_refused f.id, keep-unrefused refused none_refused ids fs)

module _ (φ : Faults) (ψ : DbFaults) (clock : ℕ → ℕ) (n : Names) (trash_dir : String) where
  module _ (χ : GroupFaults) (now days : ℕ) (db : Db) (g : DuplicateGroup) where
    pub delete_in-deleted :
        (ids : List ℕ) (ts : List (ℕ × ℕ)) (c l : ℕ) (s : GroupStatus)
        → (delete_in φ ψ clock n trash_dir χ now days db g ids).1 ≡ deleted ts c l s
        → (leb (length (files_of g.id db.files)) (length (distinct ids)) ≡ false)
          × (validate_all φ db.world.disk ids (files_of g.id db.files) ≡ [])
    unfolding delete_in settle
    delete_in-deleted ids ts c l s h = (ground arith, ground arith)

    pub delete_in-settled :
        (ids : List ℕ) (ts : List (ℕ × ℕ)) (c l : ℕ) (s : GroupStatus)
        → ((k : ℕ) → χ.delete_row k ≡ false)
        → χ.update_group ≡ false
        → (delete_in φ ψ clock n trash_dir χ now days db g ids).1 ≡ deleted ts c l s
        → ((delete_in φ ψ clock n trash_dir χ now days db g ids).0.files
            ≡ keep (λ f. not (mem f.id ids)) db.files)
          × ((delete_in φ ψ clock n trash_dir χ now days db g ids).0.groups
              ≡ update_group g.id (with_counts now c l (leb c 1)) db.groups)
          × (c ≡ length (files_of g.id db.files) - length ids)
          × (s ≡ (if leb c 1 then resolved else unresolved))
          × (l ≡ (if leb c 1 then 0 else reclaimable g.file_size c))
    unfolding delete_in settle
    delete_in-settled ids ts c l s kept updated h = (
      ground (arith, keep-unrefused χ.delete_row kept ids db.files),
      ground arith,
      ground arith,
      ground arith,
      ground arith,
    )

  -- If files are deleted, a file of the group that was not selected was on the disk with the size
  -- and the time of the last scan (or hidden by the system) when the files were checked, provided
  -- that the ids of the group's files are all different.
  pub delete-keeper :
      (χ : GroupFaults) (now days : ℕ) (db : Db) (group : ℕ) (g : DuplicateGroup) (ids : List ℕ)
      (ts : List (ℕ × ℕ)) (c l : ℕ) (s : GroupStatus)
      → find_group group db.groups ≡ some g
      → AllDifferent (file_ids (files_of g.id db.files))
      → (delete φ ψ clock n trash_dir χ now days db group (some ids)).1 ≡ deleted ts c l s
      → (f : DuplicateFile) × Member f (files_of g.id db.files)
        × (mem f.id ids ≡ false)
        × IsUnchanged φ db.world.disk f
  unfolding delete
  delete-keeper χ now days db group g [] ts c l s at u h = absurd (cc)
  delete-keeper χ now days db group g (k ∷ ks) ts c l s at u h =
      let all = files_of g.id db.files in
      let (few, valid) = delete_in-deleted χ now days db g (k ∷ ks) ts c l s (ground arith) in
      let (f, m, out) = keeper_exists (k ∷ ks) all u few in
      let checked = validate_all-nil φ db.world.disk (k ∷ ks) all f valid m in
      (f, m, out, validate-none φ db.world.disk (mem f.id (k ∷ ks)) f checked)

  -- A request that is refused before a file is moved changes nothing.
  pub delete-refused :
      (χ : GroupFaults) (now days : ℕ) (db : Db) (group : ℕ) (body : Option (List ℕ)) (r : Response)
      → (delete φ ψ clock n trash_dir χ now days db group body).1 ≡ r
      → IsRefusal r
      → (delete φ ψ clock n trash_dir χ now days db group body).0 ≡ db
  unfolding delete delete_in settle
  delete-refused χ now days db group none r h i = refl
  delete-refused χ now days db group (some []) r h i = refl
  delete-refused χ now days db group (some (k ∷ ks)) bad_request h i = ground arith
  delete-refused χ now days db group (some (k ∷ ks)) not_found h i = ground arith
  delete-refused χ now days db group (some (k ∷ ks)) no_keeper h i = ground arith
  delete-refused χ now days db group (some (k ∷ ks)) (validation_failed fs) h i = ground arith
  delete-refused χ now days db group (some (k ∷ ks)) internal_error h i = absurd i
  delete-refused χ now days db group (some (k ∷ ks)) (deleted ts c l s) h i = absurd i

  module _ (all : List DuplicateFile) (group : ℕ) (hash : String) (days i : ℕ) (w : World)
      (k : ℕ) where
    -- A request that names a file twice fails at the second move.
    move_all-repeated :
        (ks : List ℕ)
        → (path_of k all == build_trash_path n trash_dir (clock i) (path_of k all)) ≡ false
        → (move_all φ ψ clock n trash_dir all group hash days i w (k ∷ k ∷ ks)).1 ≡ none
    unfolding move_all
    move_all-repeated ks ne =
        let p = path_of k all in
        let (w', moved) = move_to_trash φ ψ (clock i) n trash_dir w p group hash days in
        elim (Result-cases moved) [
          | inr (e, failed) ↦ ground arith
          | inl (t, done) ↦
              let gone =
                move_to_trash-gone φ ψ (clock i) n trash_dir w p group hash days t ne done in
              ground (
                arith,
                move_to_trash-missing φ ψ (clock (i + 1)) n trash_dir w' p group hash days gone,
              )
        ]

  -- A request for a group that exists, which names the same file twice in a row, never succeeds,
  -- although the file may have been moved to the trash. (The file's path differs from its path in
  -- the trash.)
  pub delete-repeated :
      (χ : GroupFaults) (now days : ℕ) (db : Db) (group k : ℕ) (ks : List ℕ) (g : DuplicateGroup)
      (ts : List (ℕ × ℕ)) (c l : ℕ) (s : GroupStatus)
      → find_group group db.groups ≡ some g
      → (path_of k (files_of g.id db.files)
          == build_trash_path n trash_dir (clock 0) (path_of k (files_of g.id db.files)))
        ≡ false
      → (delete φ ψ clock n trash_dir χ now days db group (some (k ∷ k ∷ ks))).1 ≢ deleted ts c l s
  unfolding delete delete_in settle
  delete-repeated χ now days db group k ks g ts c l s e ne h =
      let all = files_of g.id db.files in
      ground (arith, move_all-repeated all g.id g.content_hash (retention days) 0 db.world k ks ne)
