-- ===== src/Scan/Writer/View.antt =====
-- What the tables record under a digest, and how writeGroupInTx (internal/scan/writer.go) changes it.
use ditto.Prelude.{
  ℕ, ◌+◌, ◌≤◌, ◌≡◌, inl, inr, List, [], ◌∷◌, ◌++◌, Option, none, some, Bool, false, not, String,
  arith, if◌then◌else◌, nat_beq, keep, length, ◌==◌, string_key, Option-cases,
}
use text.Mathlib.TextEquality.{eq_iff}
use ditto.Scan.Types.{HashedFile}
use ditto.Tables.{DuplicateGroup, DuplicateFile, FileType, find_group, files_of}
use ditto.Scan.Writer.Defs.{Store, id_of_hash, has_path, insert_group, reclaimable, new_group}
use ditto.Scan.Writer.Group.{file_paths, entry_paths}

-- A group as the tables record it: the paths of its rows of files, and the statistics of its row.
pub record Listed : Type 0 where
  pub paths : List String
  pub count : ℕ
  pub bytes : ℕ

abbrev pub view_row : List DuplicateFile → Option DuplicateGroup → Option Listed
view_row rows none = none
view_row rows (some g) =
    some (record { paths = file_paths rows; count = g.file_count; bytes = g.reclaimable_bytes })

abbrev pub view_at : Store → Option ℕ → Option Listed
view_at s none = none
view_at s (some k) = view_row (files_of k s.files) (find_group k s.groups)

-- What the store records under a digest.
abbrev pub view : String → Store → Option Listed
view h s = view_at s (id_of_hash h s.groups)

-- What the files of a digest should be recorded as.
abbrev pub listed_of : List HashedFile → Option Listed
listed_of [] = none
listed_of (f ∷ fs) = some (record {
  paths = entry_paths (f ∷ fs);
  count = length (f ∷ fs);
  bytes = reclaimable f.size (f ∷ fs);
})

-- The ids of the groups are among those given out, and two digests have two ids.
abbrev pub IsNumbered : Store → Type 0
IsNumbered s =
    ((h : String) (k : ℕ) → id_of_hash h s.groups ≡ some k → k ≤ s.last_group_id)
    × ((h h' : String) (k : ℕ)
        → id_of_hash h s.groups ≡ some k
        → id_of_hash h' s.groups ≡ some k
        → h ≡ h')

-- The rows of files that stay when the group of an id is written.
abbrev pub rows_but : Option ℕ → List DuplicateFile → List DuplicateFile
rows_but none files = files
rows_but (some k) files = keep (λ r. not (nat_beq r.group_id k)) files

-- Is the path free for the files of a digest: in no row of another one?
abbrev pub is_free : Store → String → String → Bool
is_free s h p = not (has_path p (rows_but (id_of_hash h s.groups) s.files))

abbrev orelse : Option ℕ → Option ℕ → Option ℕ
orelse none o = o
orelse (some k) o = some k

id_of_hash-append_row :
    (h : String) (gs : List DuplicateGroup) (g : DuplicateGroup)
    → id_of_hash h (gs ++ g ∷ [])
      ≡ orelse (id_of_hash h gs) (if g.content_hash == h then some g.id else none)
id_of_hash-append_row h [] g = ground arith
id_of_hash-append_row h (x ∷ gs) g = ground (arith, id_of_hash-append_row h gs g)

find_group-append_other :
    (j : ℕ) (gs : List DuplicateGroup) (g : DuplicateGroup)
    → nat_beq g.id j ≡ false
    → find_group j (gs ++ g ∷ []) ≡ find_group j gs
find_group-append_other j [] g ne = ground arith
find_group-append_other j (x ∷ gs) g ne = ground (arith, find_group-append_other j gs g)

module _ (scan_id now : ℕ) (s : Store) (hash : String) (n : ℕ) (ft : FileType) where
  -- The digest has the id that the insert gives, and no other digest's id changes.
  pub insert_group-id_of_hash :
      (h : String)
      → id_of_hash h (insert_group scan_id now s hash n ft).0.groups ≡ (
          if hash == h
          then some (insert_group scan_id now s hash n ft).1
          else id_of_hash h s.groups)
  unfolding insert_group
  insert_group-id_of_hash h = elim (Option-cases (id_of_hash hash s.groups)) [
    | inl fresh ↦
        let g = new_group scan_id now (s.last_group_id + 1) hash n ft in
        ground (arith, id_of_hash-append_row h s.groups g, eq_iff hash h)
    | inr (k, known) ↦ ground (arith, eq_iff hash h)
  ]

  -- The rows of the other ids are as before.
  pub insert_group-find_other :
      (j : ℕ)
      → nat_beq (insert_group scan_id now s hash n ft).1 j ≡ false
      → find_group j (insert_group scan_id now s hash n ft).0.groups ≡ find_group j s.groups
  unfolding insert_group
  insert_group-find_other j ne = elim (Option-cases (id_of_hash hash s.groups)) [
    | inl fresh ↦
        let g = new_group scan_id now (s.last_group_id + 1) hash n ft in
        ground (arith, find_group-append_other j s.groups g)
    | inr (k, known) ↦ ground arith
  ]

  -- The id is among those given out, and it is new or the digest's.
  pub insert_group-numbered :
      IsNumbered s
      → ((insert_group scan_id now s hash n ft).1
          ≤ (insert_group scan_id now s hash n ft).0.last_group_id)
        × (s.last_group_id ≤ (insert_group scan_id now s hash n ft).0.last_group_id)
        × ((h : String)
            → id_of_hash h s.groups ≡ some (insert_group scan_id now s hash n ft).1
            → hash ≡ h)
  unfolding insert_group
  insert_group-numbered (bounded, apart) = elim (Option-cases (id_of_hash hash s.groups)) [
    | inl fresh ↦ (
      ground arith,
      ground arith,
      λ h e. absurd (ground (arith, bounded h (s.last_group_id + 1))),
    )
    | inr (k, known) ↦
        (ground (arith, bounded hash k), ground arith, λ h e. ground (arith, apart hash h k))
  ]
