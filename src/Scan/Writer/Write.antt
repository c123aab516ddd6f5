-- ===== src/Scan/Writer/Write.antt =====
-- One writeGroupInTx (internal/scan/writer.go) whose paths are free, on the view by digests.
use ditto.Prelude.{
  ℕ, ◌+◌, ◌≤◌, ◌≡◌, ◌≢◌, refl, inl, inr, List, [], ◌∷◌, ◌++◌, append-nil, Option, none, some, Bool,
  true, false, not, String, arith, if◌then◌else◌, nat_beq, nat_beq_iff, keep, keep-append,
  keep-keep, keep-keep_disjoint, length, ◌==◌, string_key, ap, ◌∙◌, sym, Bool-cases, Option-cases,
}
use text.Mathlib.TextEquality.{eq_iff}
use ditto.Scan.Types.{HashedFile, add64}
use ditto.Tables.{DuplicateFile, find_group, update_group, files_of, find_group-update}
use ditto.Media.{detect}
use ditto.Scan.Writer.Defs.{
  Store, WriteStats, ok, id_of_hash, has_path, insert_group, reclaimable, set_statistics,
  write_group_in_tx,
}
use ditto.Scan.Writer.Group.{
  file_paths, entry_paths, id_of_hash-update, insert_group-files, insert_group-find,
  has_path-append,
}
use ditto.Scan.Writer.Insert.{
  at_path, with_files, file_rows, insert_files_lem, has_path-keep_absent, has_path-file_rows,
}
use ditto.Scan.Writer.View.{
  view_row, view, listed_of, IsNumbered, rows_but, is_free, insert_group-id_of_hash,
  insert_group-find_other, insert_group-numbered,
}

files_of-file_rows :
    (ext : String → String) (scan_id now k group : ℕ) (fs : List HashedFile)
    → (file_paths (files_of group (file_rows ext scan_id now k group fs)) ≡ entry_paths fs)
      × ((j : ℕ) → nat_beq group j ≡ false → files_of j (file_rows ext scan_id now k group fs) ≡ [])
files_of-file_rows ext scan_id now k group [] = (refl, λ j ne. refl)
files_of-file_rows ext scan_id now k group (f ∷ fs) =
    let (own, others) = files_of-file_rows ext scan_id now (k + 1) group fs in
    (ground (arith, nat_beq_iff group group), λ j ne. ground (arith, others j))

has_path-rows_but :
    (p : String) (o : Option ℕ) (xs ys : List DuplicateFile)
    → has_path p ys ≡ false
    → has_path p (rows_but o (xs ++ ys)) ≡ has_path p (rows_but o xs)
has_path-rows_but p none xs ys h = ground (arith, has_path-append p xs ys)
has_path-rows_but p (some k) xs ys h =
    let q : DuplicateFile → Bool = λ r. not (nat_beq r.group_id k) in
    rw (keep-append q xs ys)
      (ground (arith, has_path-append p (keep q xs) (keep q ys), has_path-keep_absent p q ys))

has_path-keep-keep_absent :
    (p : String) (a q : DuplicateFile → Bool) (xs : List DuplicateFile)
    → has_path p (keep a xs) ≡ false
    → has_path p (keep a (keep q xs)) ≡ false
has_path-keep-keep_absent p a q [] h = h
has_path-keep-keep_absent p a q (x ∷ xs) h = ground (arith, has_path-keep-keep_absent p a q xs)

has_path-rows_but-keep :
    (p : String) (o : Option ℕ) (q : DuplicateFile → Bool) (xs : List DuplicateFile)
    → has_path p (rows_but o xs) ≡ false
    → has_path p (rows_but o (keep q xs)) ≡ false
has_path-rows_but-keep p none q xs h = has_path-keep_absent p q xs h
has_path-rows_but-keep p (some k) q xs h =
    has_path-keep-keep_absent p (λ r. not (nat_beq r.group_id k)) q xs h

module _ (ext : String → String) (scan_id now : ℕ) (s : Store) (hash : String) (f : HashedFile)
    (fs : List HashedFile) where
  -- The id that the digest gets, and the store with its row and without its rows of files.
  abbrev new_id : ℕ
  new_id = (insert_group scan_id now s hash f.size (detect ext f.path)).1

  abbrev cleared : Store
  cleared =
      let t = (insert_group scan_id now s hash f.size (detect ext f.path)).0 in
      record t { files = keep (λ r. not (nat_beq r.group_id new_id)) t.files }

  abbrev pub written : Store
  written = record (with_files ext scan_id now new_id cleared (f ∷ fs)) {
    groups =
        update_group new_id (set_statistics scan_id now (f ∷ fs) f.size (detect ext f.path))
          cleared.groups;
  }

  cleared-free : (p : String) → is_free s hash p ≡ true → has_path p cleared.files ≡ false
  unfolding insert_group
  cleared-free p free = elim (Option-cases (id_of_hash hash s.groups)) [
    | inl fresh ↦ ground (
      arith,
      has_path-keep_absent p (λ r. not (nat_beq r.group_id (s.last_group_id + 1))) s.files,
    )
    | inr (k, known) ↦ ground arith
  ]

  pub write_group_in_tx-free :
      (t : WriteStats)
      → ((p : String) → at_path p (f ∷ fs) ≤ 1)
      → ((p : String) → 1 ≤ at_path p (f ∷ fs) → is_free s hash p ≡ true)
      → write_group_in_tx ext scan_id now (s, t) (record { hash = hash; files = f ∷ fs })
        ≡ ok (
          written,
          record t {
            duplicate_groups = add64 t.duplicate_groups 1;
            duplicate_files = add64 t.duplicate_files (length (f ∷ fs));
            reclaimable_bytes = add64 t.reclaimable_bytes (reclaimable f.size (f ∷ fs));
          },
        )
  unfolding write_group_in_tx
  write_group_in_tx-free t once free =
      let done =
        insert_files_lem ext scan_id now new_id cleared (f ∷ fs) once
          (λ p here. cleared-free p (free p here)) in
      rw done refl

  written-id_of_hash :
      (h : String)
      → id_of_hash h written.groups ≡ (if hash == h then some new_id else id_of_hash h s.groups)
  written-id_of_hash h =
      id_of_hash-update h new_id (set_statistics scan_id now (f ∷ fs) f.size (detect ext f.path))
        cleared.groups (λ g. (refl, refl))
      ∙ insert_group-id_of_hash scan_id now s hash f.size (detect ext f.path) h

  pub written-IsNumbered : IsNumbered s → IsNumbered written
  written-IsNumbered numbered =
      let (bounded, apart) = numbered in
      let (given, grows, own) =
        insert_group-numbered scan_id now s hash f.size (detect ext f.path) numbered in
      (
        λ h k e. ground (arith, written-id_of_hash h, bounded h k),
        λ h h' k e e'. ground (
          arith,
          written-id_of_hash h,
          written-id_of_hash h',
          eq_iff hash h,
          eq_iff hash h',
          own h,
          own h',
          apart h h' k,
        ),
      )

  -- A path that another digest's files may take they may still take, if it is not one of these.
  pub written-is_free :
      (h p : String)
      → hash ≢ h
      → at_path p (f ∷ fs) ≡ 0
      → is_free s h p ≡ true
      → is_free written h p ≡ true
  written-is_free h p ne absent free =
      let id : id_of_hash h written.groups ≡ id_of_hash h s.groups =
        written-id_of_hash h ∙ ground (arith, eq_iff hash h) in
      let rows = file_rows ext scan_id now cleared.last_file_id new_id (f ∷ fs) in
      let o = id_of_hash h s.groups in
      let new_rows =
        has_path-file_rows ext scan_id now p cleared.last_file_id new_id (f ∷ fs) absent in
      let same : has_path p (rows_but o (cleared.files ++ rows))
          ≡ has_path p (rows_but o cleared.files) =
        has_path-rows_but p o cleared.files rows new_rows in
      let old : has_path p (rows_but o s.files) ≡ false = ground arith in
      let less : has_path p (rows_but o cleared.files) ≡ false =
        ap (λ l. has_path p (rows_but o (keep (λ r. not (nat_beq r.group_id new_id)) l)))
          (insert_group-files scan_id now s hash f.size (detect ext f.path))
        ∙ has_path-rows_but-keep p o (λ r. not (nat_beq r.group_id new_id)) s.files old in
      rw id (rw same (rw less refl))

  -- The digest's rows are its files, with their statistics.
  written-view_own : view hash written ≡ listed_of (f ∷ fs)
  written-view_own =
      let ft = detect ext f.path in
      let (g, at) = insert_group-find scan_id now s hash f.size ft in
      let id : id_of_hash hash written.groups ≡ some new_id =
        written-id_of_hash hash ∙ ground (arith, eq_iff hash hash) in
      let row : find_group new_id written.groups
          ≡ some (set_statistics scan_id now (f ∷ fs) f.size ft g) =
        find_group-update new_id new_id (set_statistics scan_id now (f ∷ fs) f.size ft)
          cleared.groups (λ g. refl)
        ∙ ground (arith, nat_beq_iff new_id new_id) in
      let none_left : files_of new_id cleared.files ≡ [] =
        keep-keep_disjoint (λ (r : DuplicateFile). nat_beq r.group_id new_id)
          (λ r. not (nat_beq r.group_id new_id)) (λ r e. ground arith) _ in
      let rows : file_paths (files_of new_id written.files) ≡ entry_paths (f ∷ fs) =
        ap file_paths (keep-append _ cleared.files _)
        ∙ ap
            (λ l. file_paths (
              l
              ++ files_of new_id (file_rows ext scan_id now cleared.last_file_id new_id (f ∷ fs))))
            none_left
        ∙ (files_of-file_rows ext scan_id now cleared.last_file_id new_id (f ∷ fs)).0 in
      rw id (
        rw row (
          ap
            (λ l.
              some (record {
                paths = l;
                count = length (f ∷ fs);
                bytes = reclaimable f.size (f ∷ fs);
              }))
            rows))

  -- Another digest's rows are as before.
  written-view_other : IsNumbered s → (h : String) → hash ≢ h → view h written ≡ view h s
  written-view_other numbered h ne =
      let id : id_of_hash h written.groups ≡ id_of_hash h s.groups =
        written-id_of_hash h ∙ ground (arith, eq_iff hash h) in
      elim (Option-cases (id_of_hash h s.groups)) [
        | inl absent ↦ rw id (rw absent refl)
        | inr (j, known) ↦
            let ft = detect ext f.path in
            let (given, grows, own) = insert_group-numbered scan_id now s hash f.size ft numbered in
            let differ : nat_beq new_id j ≡ false = ground (arith, own h, nat_beq_iff new_id j) in
            let row : find_group j written.groups ≡ find_group j s.groups =
              find_group-update j new_id (set_statistics scan_id now (f ∷ fs) f.size ft)
                cleared.groups (λ g. refl)
              ∙ ground (arith, nat_beq_iff j new_id, nat_beq_iff new_id j)
              ∙ insert_group-find_other scan_id now s hash f.size ft j differ in
            let files : files_of j written.files ≡ files_of j s.files =
              keep-append _ cleared.files _
              ∙ ap (λ l. files_of j cleared.files ++ l)
                  ((files_of-file_rows ext scan_id now cleared.last_file_id new_id (f ∷ fs)).1 j
                    differ)
              ∙ append-nil _
              ∙ keep-keep (λ (r : DuplicateFile). nat_beq r.group_id j)
                  (λ r. not (nat_beq r.group_id new_id)) (λ r e. ground arith) _
              ∙ ap (files_of j) (insert_group-files scan_id now s hash f.size ft) in
            rw id (
              rw known (
                ap (λ l. view_row l (find_group j written.groups)) files
                ∙ ap (view_row (files_of j s.files)) row))
      ]

  -- On the view by digests, the write is an update at the digest.
  pub written-view :
      IsNumbered s
      → (h : String) → view h written ≡ (if hash == h then listed_of (f ∷ fs) else view h s)
  written-view numbered h = elim (Bool-cases (hash == h)) [
    | inl same ↦
        rw same (ap (λ x. view x written) (sym ((eq_iff hash h).0 same)) ∙ written-view_own)
    | inr ne ↦ rw ne (written-view_other numbered h (λ e. ground (arith, eq_iff hash h)))
  ]
