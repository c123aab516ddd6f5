-- ===== src/Files/Previewed.antt =====
-- The thumbnail of a group (internal/api/handlers/groups.go) against those of its files
-- (internal/api/handlers/files.go).
use ditto.Prelude.{
  ℕ, ◌≡◌, refl, List, [], ◌∷◌, Option, some, true, false, String, nat_beq_iff, keep, take, keys_of,
  find_by_lem, AllDifferent, Member, Member-perm, Member-take, Member-keep, arith, inl, inr,
}
use mathlib.Core.List.{Permᴰ}
use ditto.Tables.{DuplicateFile}
use ditto.Media.Thumbnail.{Thumb, no_thumbnail, failed, made}
use ditto.Files.{
  jpeg, is_image, find_file, file_thumbnail, first_thumbnail, is_candidate, group_thumbnail,
}

module _ (Float : Type 0) (parse_int : String → Option ℕ) (files : List DuplicateFile)
    (thumbnail : String → Thumb) where
  first_thumbnail-made :
      (fs : List DuplicateFile) (out : List ℕ)
      → first_thumbnail Float parse_int false files thumbnail fs ≡ jpeg out
      → (f : DuplicateFile) × Member f fs × (thumbnail f.path ≡ made out)
  first_thumbnail-made [] out h = absurd (ground arith)
  first_thumbnail-made (f ∷ fs) out h =
      step f fs out (thumbnail f.path) refl (first_thumbnail-made fs out) h
    where
      step :
          (f : DuplicateFile) (fs : List DuplicateFile) (out : List ℕ) (t : Thumb)
          → thumbnail f.path ≡ t
          → (first_thumbnail Float parse_int false files thumbnail fs ≡ jpeg out
              → (g : DuplicateFile) × Member g fs × (thumbnail g.path ≡ made out))
          → first_thumbnail Float parse_int false files thumbnail (f ∷ fs) ≡ jpeg out
          → (g : DuplicateFile) × Member g (f ∷ fs) × (thumbnail g.path ≡ made out)
      step f fs out no_thumbnail e ih h = let (g, there, m) = ih (ground arith) in (g, inr there, m)
      step f fs out failed e ih h = let (g, there, m) = ih (ground arith) in (g, inr there, m)
      step f fs out (made out') e ih h = (f, inl refl, ground arith)

  -- If the ids of the files differ, the query of the group orders the rows that it selects, and numbers are
  -- read back from addresses, the thumbnail that a group is shown with is the one of an image file of the
  -- group at that file's address, if no query is refused.
  pub group_thumbnail-file_thumbnail :
      (by_path : List DuplicateFile → List DuplicateFile) (address : ℕ → String) (id : String)
      (k : ℕ) (out : List ℕ)
      → AllDifferent (keys_of (λ (f : DuplicateFile). f.id) files)
      → ((fs : List DuplicateFile) → Permᴰ (by_path fs) fs)
      → ((n : ℕ) → parse_int (address n) ≡ some n)
      → parse_int id ≡ some k
      → group_thumbnail Float parse_int false files by_path thumbnail id ≡ jpeg out
      → (f : DuplicateFile) × Member f files
        × (f.group_id ≡ k)
        × (is_image f.file_type ≡ true)
        × (file_thumbnail Float parse_int false files thumbnail (address f.id) ≡ jpeg out)
  unfolding group_thumbnail file_thumbnail
  group_thumbnail-file_thumbnail by_path address id k out differ ordered read parsed answered =
      let candidates = keep (is_candidate Float parse_int false files k) files in
      let (f, there, m) = first_thumbnail-made (take 10 (by_path candidates)) out (ground arith) in
      let (row, passes) =
        Member-keep f (is_candidate Float parse_int false files k) files
          (Member-perm f (ordered candidates) (Member-take f 10 (by_path candidates) there)) in
      let found : find_file f.id files ≡ some f =
        find_by_lem (λ (x : DuplicateFile). x.id) f files differ row in
      (f, row, ground (arith, nat_beq_iff f.group_id k), ground arith, ground (arith, read f.id))
