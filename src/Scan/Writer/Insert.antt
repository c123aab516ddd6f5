-- ===== src/Scan/Writer/Insert.antt =====
-- The inserts of writeGroupInTx (internal/scan/writer.go) when no path of the group is in the table.
use ditto.Prelude.{
  ℕ, ◌+◌, ◌≤◌, ◌≡◌, refl, List, [], ◌∷◌, ◌++◌, append_assoc, append-nil, Bool, false, String, arith,
  keep, length, count_if, ◌==◌, string_key, ap, ◌∙◌,
}
use text.Mathlib.TextEquality.{eq_iff}
use ditto.Scan.Types.{HashedFile}
use ditto.Tables.{DuplicateFile}
use ditto.Scan.Writer.Defs.{Store, ok, has_path, insert_files, file_row}
use ditto.Scan.Writer.Group.{has_path-append}

-- How many of the files have the path `p`.
abbrev pub at_path : String → List HashedFile → ℕ
at_path p = count_if (λ f. f.path == p)

pub has_path-keep_absent :
    (p : String) (q : DuplicateFile → Bool) (fs : List DuplicateFile)
    → has_path p fs ≡ false
    → has_path p (keep q fs) ≡ false
has_path-keep_absent p q [] h = h
has_path-keep_absent p q (f ∷ fs) h = ground (arith, has_path-keep_absent p q fs)

module _ (ext : String → String) (scan_id now : ℕ) where
  -- The rows that the inserts append, numbered on from `k`.
  abbrev pub file_rows : ℕ → ℕ → List HashedFile → List DuplicateFile
  file_rows k group [] = []
  file_rows k group (f ∷ fs) = file_row ext scan_id now (k + 1) group f ∷ file_rows (k + 1) group fs

  pub has_path-file_rows :
      (p : String) (k group : ℕ) (fs : List HashedFile)
      → at_path p fs ≡ 0
      → has_path p (file_rows k group fs) ≡ false
  has_path-file_rows p k group [] h = refl
  has_path-file_rows p k group (f ∷ fs) h =
      ground (arith, eq_iff f.path p, has_path-file_rows p (k + 1) group fs)

  -- The store after the inserts.
  abbrev pub with_files : ℕ → Store → List HashedFile → Store
  with_files group s fs = record s {
    files = s.files ++ file_rows s.last_file_id group fs;
    last_file_id = s.last_file_id + length fs;
  }

  with_files-cons :
      (group : ℕ) (s : Store) (f : HashedFile) (fs : List HashedFile)
      → with_files group (with_files group s (f ∷ [])) fs ≡ with_files group s (f ∷ fs)
  with_files-cons group s f fs = ground (
    arith,
    append_assoc s.files (file_rows s.last_file_id group (f ∷ []))
        (file_rows (s.last_file_id + 1) group fs),
  )

  -- The inserts succeed if no path comes twice and none is in the table.
  pub insert_files_lem :
      (group : ℕ) (s : Store) (fs : List HashedFile)
      → ((p : String) → at_path p fs ≤ 1)
      → ((p : String) → 1 ≤ at_path p fs → has_path p s.files ≡ false)
      → insert_files ext scan_id now group s fs ≡ ok (with_files group s fs)
  unfolding insert_files
  insert_files_lem group s [] once free = ground (arith, append-nil s.files)
  insert_files_lem group s (f ∷ fs) once free =
      let s' = with_files group s (f ∷ []) in
      let here : has_path f.path s.files ≡ false =
        free f.path (ground (arith, eq_iff f.path f.path)) in
      let later : (p : String) → 1 ≤ at_path p fs → has_path p s'.files ≡ false = λ p some_file.
        ground (
          arith,
          free p,
          once p,
          eq_iff f.path p,
          has_path-append p s.files (file_rows s.last_file_id group (f ∷ [])),
        ) in
      let rest = insert_files_lem group s' fs (λ p. ground (arith, once p)) later in
      rw here (rest ∙ ap ok (with_files-cons group s f fs))
