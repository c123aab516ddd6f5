-- ===== src/Groups/Counts.antt =====
-- The statistics that GroupsHandler.Delete (internal/api/handlers/groups.go) writes.
use ditto.Prelude.{
  ℕ, ◌+◌, ◌≤◌, ◌≡◌, refl, inl, inr, List, [], ◌∷◌, some, Bool, true, false, String, not, arith,
  if◌then◌else◌, leb, nat_beq, nat_beq_iff, keep, length, mem, distinct, Bool-cases, AllDifferent,
  AllIn, length-le_of_AllIn, ap, sym, ◌∙◌,
}
use ditto.Disk.{Faults}
use ditto.Trash.Manager.{Names, DbFaults}
use ditto.Tables.{
  DuplicateGroup, DuplicateFile, GroupStatus, unresolved, resolved, find_group, find_group-update,
  update_group, files_of,
}
use ditto.Groups.Delete.{Db, GroupFaults, deleted, delete, delete_in, reclaimable, with_counts}
use ditto.Groups.Safety.{file_ids, length-file_ids, delete_in-deleted, delete_in-settled}

abbrev selected : List ℕ → DuplicateFile → Bool
selected ids f = mem f.id ids

abbrev unselected : List ℕ → DuplicateFile → Bool
unselected ids f = not (mem f.id ids)

length-keep_split :
    (ids : List ℕ) (fs : List DuplicateFile)
    → length (keep (unselected ids) fs) + length (keep (selected ids) fs) ≡ length fs
length-keep_split ids [] = omega arith
length-keep_split ids (f ∷ fs) = ground (arith, length-keep_split ids fs)

files_of-keep :
    (group : ℕ) (ids : List ℕ) (fs : List DuplicateFile)
    → files_of group (keep (unselected ids) fs) ≡ keep (unselected ids) (files_of group fs)
files_of-keep group ids [] = refl
files_of-keep group ids (f ∷ fs) = ground (arith, files_of-keep group ids fs)

keep-AllIn :
    (ids : List ℕ) (fs : List DuplicateFile) → AllIn (file_ids (keep (selected ids) fs)) ids
keep-AllIn ids [] = tt
keep-AllIn ids (f ∷ fs) = elim (Bool-cases (mem f.id ids)) [
  | inl here ↦ rw here (here, keep-AllIn ids fs)
  | inr out ↦ rw out (keep-AllIn ids fs)
]

mem-file_ids-keep :
    (k : ℕ) (ids : List ℕ) (fs : List DuplicateFile)
    → mem k ids ≡ true
    → mem k (file_ids (keep (selected ids) fs)) ≡ mem k (file_ids fs)
mem-file_ids-keep k ids [] h = refl
mem-file_ids-keep k ids (f ∷ fs) h =
    ground (arith, nat_beq_iff f.id k, mem-file_ids-keep k ids fs h)

keep-not-mem :
    (k : ℕ) (ids : List ℕ) (fs : List DuplicateFile)
    → mem k (file_ids fs) ≡ false
    → mem k (file_ids (keep (selected ids) fs)) ≡ false
keep-not-mem k ids [] h = refl
keep-not-mem k ids (f ∷ fs) h = ground (arith, keep-not-mem k ids fs)

keep-AllDifferent :
    (ids : List ℕ) (fs : List DuplicateFile)
    → AllDifferent (file_ids fs)
    → AllDifferent (file_ids (keep (selected ids) fs))
keep-AllDifferent ids [] u = tt
keep-AllDifferent ids (f ∷ fs) u = elim (Bool-cases (mem f.id ids)) [
  | inl here ↦ rw here (keep-not-mem f.id ids fs u.0, keep-AllDifferent ids fs u.1)
  | inr out ↦ rw out (keep-AllDifferent ids fs u.1)
]

AllIn-keep :
    (ids js : List ℕ) (fs : List DuplicateFile)
    → AllIn js ids
    → AllIn js (file_ids fs)
    → AllIn js (file_ids (keep (selected ids) fs))
AllIn-keep ids [] fs h i = tt
AllIn-keep ids (j ∷ js) fs h i =
    (mem-file_ids-keep j ids fs h.0 ∙ i.0, AllIn-keep ids js fs h.1 i.1)

AllIn-cons : (k : ℕ) (js ks : List ℕ) → AllIn js ks → AllIn js (k ∷ ks)
AllIn-cons k [] ks h = tt
AllIn-cons k (j ∷ js) ks h = (ground arith, AllIn-cons k js ks h.1)

AllIn-self : (js : List ℕ) → AllIn js js
AllIn-self [] = tt
AllIn-self (j ∷ js) = ((ground (arith, nat_beq_iff j j)), AllIn-cons j js js (AllIn-self js))

distinct_of_AllDifferent : (js : List ℕ) → AllDifferent js → distinct js ≡ js
distinct_of_AllDifferent [] u = refl
distinct_of_AllDifferent (j ∷ js) u = rw (u.0, distinct_of_AllDifferent js u.1)

-- Selecting different ids of the files leaves the others.
length-keep-unselected :
    (ids : List ℕ) (fs : List DuplicateFile)
    → AllDifferent (file_ids fs)
    → AllDifferent ids
    → AllIn ids (file_ids fs)
    → length (keep (unselected ids) fs) + length ids ≡ length fs
length-keep-unselected ids fs u v i =
    let chosen = file_ids (keep (selected ids) fs) in
    omega (
      arith,
      length-keep_split ids fs,
      length-file_ids (keep (selected ids) fs),
      length-le_of_AllIn chosen ids (keep-AllDifferent ids fs u) (keep-AllIn ids fs),
      length-le_of_AllIn ids chosen v (AllIn-keep ids ids fs (AllIn-self ids) i),
    )

find_group-id :
    (k : ℕ) (gs : List DuplicateGroup) (g : DuplicateGroup) → find_group k gs ≡ some g → g.id ≡ k
find_group-id k [] g at = absurd (ground arith)
find_group-id k (x ∷ gs) g at = elim (Bool-cases (nat_beq x.id k)) [
  | inl here ↦
      let found : some x ≡ some g = ground arith in ground (arith, found, nat_beq_iff x.id k)
  | inr other ↦ find_group-id k gs g (ground arith)
]

-- The row of a group that was found, after its UPDATE.
found_updated :
    (group : ℕ) (g : DuplicateGroup) (change : DuplicateGroup → DuplicateGroup)
    (gs : List DuplicateGroup)
    → ((r : DuplicateGroup) → (change r).id ≡ r.id)
    → find_group group gs ≡ some g
    → find_group group (update_group g.id change gs) ≡ some (change g)
found_updated group g change gs same at =
    let named : g.id ≡ group = find_group-id group gs g at in
    ground (arith, find_group-update group g.id change gs same, nat_beq_iff group g.id)

module _ (φ : Faults) (ψ : DbFaults) (clock : ℕ → ℕ) (n : Names) (trash_dir : String) where
  -- If different files of a group are deleted and no statement of the transaction is refused, the
  -- count in the answer is the number of the group's rows that are left and at least 1; the status in
  -- the answer is resolved, with nothing reclaimable, exactly if one is left, and else unresolved with
  -- the file size for each further copy, as a 64-bit word; and the row of the group in the table has
  -- the count, the bytes and the status of the answer.
  pub delete-counts :
      (χ : GroupFaults) (now days : ℕ) (db : Db) (group : ℕ) (g : DuplicateGroup) (ids : List ℕ)
      (ts : List (ℕ × ℕ)) (c l : ℕ) (s : GroupStatus)
      → find_group group db.groups ≡ some g
      → AllDifferent (file_ids (files_of g.id db.files))
      → AllDifferent ids
      → AllIn ids (file_ids (files_of g.id db.files))
      → ((k : ℕ) → χ.delete_row k ≡ false)
      → χ.update_group ≡ false
      → (delete φ ψ clock n trash_dir χ now days db group (some ids)).1 ≡ deleted ts c l s
      → (c
          ≡ length
              (files_of g.id (delete φ ψ clock n trash_dir χ now days db group (some ids)).0.files))
        × (1 ≤ c)
        × (s ≡ (if leb c 1 then resolved else unresolved))
        × (l ≡ (if leb c 1 then 0 else reclaimable g.file_size c))
        × (r : DuplicateGroup) × (find_group group
              (delete φ ψ clock n trash_dir χ now days db group (some ids)).0.groups
            ≡ some r)
        × (r.file_count ≡ c)
        × (r.reclaimable_bytes ≡ l)
        × (r.status ≡ s)
  unfolding delete
  delete-counts χ now days db group g [] ts c l s at u v i kept updated h = absurd (cc)
  delete-counts χ now days db group g (k ∷ ks) ts c l s at u v i kept updated h =
      let all = files_of g.id db.files in
      let inner : (delete_in φ ψ clock n trash_dir χ now days db g (k ∷ ks)).1 ≡ deleted ts c l s =
        ground arith in
      let (few, valid) =
        delete_in-deleted φ ψ clock n trash_dir χ now days db g (k ∷ ks) ts c l s inner in
      let (files, groups, count, status, left) =
        delete_in-settled φ ψ clock n trash_dir χ now days db g (k ∷ ks) ts c l s kept updated
          inner in
      let answer : delete φ ψ clock n trash_dir χ now days db group (some (k ∷ ks))
          ≡ delete_in φ ψ clock n trash_dir χ now days db g (k ∷ ks) =
        ground arith in
      let total = length-keep-unselected (k ∷ ks) all u v i in
      let same = distinct_of_AllDifferent (k ∷ ks) v in
      (
        rw (answer, files, files_of-keep g.id (k ∷ ks) db.files) (omega (arith, total, count)),
        ground (arith, ap length same),
        status,
        left,
        with_counts now c l (leb c 1) g,
        rw (answer, groups)
            (found_updated group g (with_counts now c l (leb c 1)) db.groups (λ r. refl) at),
        refl,
        refl,
        sym status,
      )
