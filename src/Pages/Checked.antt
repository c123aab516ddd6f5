-- ===== src/Pages/Checked.antt =====
-- What the form that deletes copies (uiGroupDelete of internal/api/pages.go) checks before it does.
use ditto.Prelude.{
  ℕ, suc, ◌+◌, ◌≤◌, ◌≡◌, refl, List, [], ◌∷◌, Option, none, some, Bool, true, false, not, ◌&&◌,
  String, nat_beq, leb, keep, length, count_if, mem, arith, Bool-cases, inl, inr, ap, sym, ◌∙◌,
  string_key, ◌==◌, nat_beq_iff, length-keep,
}
use ditto.Disk.{Disk, Faults, Stat, missing, denied, found, stat}
use ditto.Trash.Manager.{Names, DbFaults}
use ditto.Tables.{DuplicateGroup, DuplicateFile, GroupStatus, find_group, files_of}
use ditto.Groups.Delete.{Db}
use ditto.Pages.Delete.{
  PageFaults, files_deleted, DeleteForm, ids_of, check_file, check_files, selection,
  delete_selected, ui_group_delete,
}

abbrev pub is_present : Stat → Bool
is_present missing = false
is_present denied = true
is_present (found g) = true

-- Is it the file `k`, and not missing from the disk?
abbrev pub kept_at : Faults → Disk → ℕ → DuplicateFile → Bool
kept_at φ d k f = nat_beq f.id k && is_present (stat φ d f.path)

abbrev pub has_id : ℕ → DuplicateFile → Bool
has_id k f = nat_beq f.id k

length-ids_of : (fs : List DuplicateFile) → length (ids_of fs) ≡ length fs
length-ids_of [] = refl
length-ids_of (f ∷ fs) = ap suc (length-ids_of fs)

others :
    (k : ℕ) (fs : List DuplicateFile)
    → count_if (λ r. not (nat_beq r.id k)) fs + count_if (has_id k) fs ≡ length fs
others k [] = refl
others k (f ∷ fs) = ground (arith, others k fs)

not_selected :
    (k : ℕ) (fs : List DuplicateFile) → mem k (ids_of (keep (λ r. not (nat_beq r.id k)) fs)) ≡ false
not_selected k [] = refl
not_selected k (f ∷ fs) = ground (arith, not_selected k fs)

-- Where the check passes, a keeper that is not selected is on the disk.
check_files-keeper :
    (φ : Faults) (d : Disk) (k : ℕ) (ids : List ℕ) (fs : List DuplicateFile)
    → mem k ids ≡ false
    → check_files φ d (some k) ids fs ≡ none
    → count_if (kept_at φ d k) fs ≡ count_if (has_id k) fs
unfolding check_files
check_files-keeper φ d k ids [] out h = refl
check_files-keeper φ d k ids (f ∷ fs) out h =
    ground (arith, check_files-keeper φ d k ids fs out, nat_beq_iff f.id k, ap (λ j. mem j ids))

module _ (parse_int : String → Option ℕ) (ranged : List DuplicateFile → List DuplicateFile)
    (φ : Faults) (ψ : DbFaults) (clock : ℕ → ℕ) (n : Names) (trash_dir : String) where
  delete_selected-files_deleted :
      (χ : PageFaults) (now days : ℕ) (db : Db) (g : DuplicateGroup) (keeper : Option ℕ)
      (ids : List ℕ) (s : GroupStatus)
      → (delete_selected parse_int ranged φ ψ clock n trash_dir χ now days db g keeper ids).1
        ≡ files_deleted s
      → (leb (length (files_of g.id db.files)) (length ids) ≡ false)
        × (check_files φ db.world.disk keeper ids (ranged (files_of g.id db.files)) ≡ none)
  unfolding delete_selected
  delete_selected-files_deleted χ now days db g keeper ids s h = (ground arith, ground arith)

  -- The form with a keeper: if files are deleted, the keeper is a file of the group, and no file of the
  -- group with its id was missing from the disk when the files were checked (a read error passes). Ranging
  -- over the map of the files gives each of them once.
  pub keep_one-keeper :
      ((p : DuplicateFile → Bool) (fs : List DuplicateFile)
        → count_if p (ranged fs) ≡ count_if p fs)
      → (χ : PageFaults) (now days : ℕ) (db : Db) (id : String) (group k : ℕ) (g : DuplicateGroup)
        (form : DeleteForm) (s : GroupStatus)
      → parse_int id ≡ some group
      → find_group group db.groups ≡ some g
      → (form.keeper_id == "") ≡ false
      → parse_int form.keeper_id ≡ some k
      → (ui_group_delete parse_int ranged φ ψ clock n trash_dir χ now days db id form).1
        ≡ files_deleted s
      → (1 ≤ count_if (has_id k) (files_of g.id db.files))
        × (count_if (kept_at φ db.world.disk k) (files_of g.id db.files)
            ≡ count_if (has_id k) (files_of g.id db.files))
  unfolding ui_group_delete selection
  keep_one-keeper once χ now days db id group k g form s at there named number h =
      let all = files_of g.id db.files in
      let ids = ids_of (keep (λ r. not (nat_beq r.id k)) (ranged all)) in
      let chosen : (delete_selected parse_int ranged φ ψ clock n trash_dir χ now days db g (some k)
            ids).1
          ≡ files_deleted s =
        ground arith in
      let (few, valid) = delete_selected-files_deleted χ now days db g (some k) ids s chosen in
      let sizes =
        length-ids_of (keep (λ r. not (nat_beq r.id k)) (ranged all))
        ∙ length-keep (λ r. not (nat_beq r.id k)) (ranged all)
        ∙ once (λ r. not (nat_beq r.id k)) all in
      let checked =
        check_files-keeper φ db.world.disk k ids (ranged all) (not_selected k (ranged all)) valid in
      (
        ground (arith, sizes, others k all),
        sym (once (kept_at φ db.world.disk k) all) ∙ checked ∙ once (has_id k) all,
      )

unticked_file :
    (ids : List ℕ) (f : DuplicateFile) (at : Stat)
    → mem f.id ids ≡ false
    → check_file none ids f at ≡ none
unticked_file ids f missing h = ground arith
unticked_file ids f denied h = refl
unticked_file ids f (found g) h = ground arith

-- The form with ticked boxes: files that are not ticked are not looked at, so that the last copy may be
-- one that is no longer on the disk.
pub check_files-unticked :
    (φ : Faults) (d : Disk) (ids : List ℕ) (fs : List DuplicateFile)
    → check_files φ d none ids fs ≡ check_files φ d none ids (keep (λ f. mem f.id ids) fs)
unfolding check_files
check_files-unticked φ d ids [] = refl
check_files-unticked φ d ids (f ∷ fs) = elim (Bool-cases (mem f.id ids)) [
  | inl ticked ↦ ground (arith, check_files-unticked φ d ids fs)
  | inr kept ↦
      ground (arith, unticked_file ids f (stat φ d f.path) kept, check_files-unticked φ d ids fs)
]
