-- ===== src/Scan/Writer/Group.antt =====
-- writeGroupInTx (internal/scan/writer.go): what it leaves in the tables, and when it fails.
use ditto.Prelude.{
  ℕ, ◌+◌, ◌≤◌, ◌≡◌, ◌≢◌, ◌⊎◌, refl, inl, inr, List, [], ◌∷◌, ◌++◌, append_assoc, append-nil, none,
  some, true, false, not, ◌||◌, String, arith, nat_beq, nat_beq_iff, keep, keep-append, keep-keep,
  keep-keep_disjoint, length, string_key, ap, ◌∙◌, sym, Bool-cases, Option-cases, Member,
}
use text.Mathlib.TextEquality.{eq_iff}
use ditto.Scan.Types.{HashedFile, unix}
use ditto.Tables.{
  DuplicateGroup, DuplicateFile, FileType, find_group, update_group, files_of, find_group-update,
}
use ditto.Media.{detect}
use ditto.Scan.Writer.Defs.{
  Store, WriteStats, WriteError, Result, ok, err, id_of_hash, has_path, insert_group, insert_files,
  file_row, reclaimable, set_statistics, write_group_in_tx, new_group,
}

abbrev pub file_paths : List DuplicateFile → List String
file_paths [] = []
file_paths (f ∷ fs) = f.path ∷ file_paths fs

abbrev pub entry_paths : List HashedFile → List String
entry_paths [] = []
entry_paths (f ∷ fs) = f.path ∷ entry_paths fs

-- What a row tells of a file of a scan.
pub record FileFacts : Type 0 where
  pub path : String
  pub size : ℕ
  pub mtime : ℕ
  pub file_type : FileType
  pub scan_id : ℕ

abbrev pub row_facts : List DuplicateFile → List FileFacts
row_facts [] = []
row_facts (r ∷ rs) =
    record {
      path = r.path;
      size = r.size;
      mtime = r.mtime;
      file_type = r.file_type;
      scan_id = r.scan_id;
    }
    ∷ row_facts rs

-- The same of the files, as the scan found them: the time in seconds, the type by the extension.
abbrev pub entry_facts : (String → String) → ℕ → List HashedFile → List FileFacts
entry_facts ext scan_id [] = []
entry_facts ext scan_id (f ∷ fs) =
    record {
      path = f.path;
      size = f.size;
      mtime = unix f.mtime;
      file_type = detect ext f.path;
      scan_id = scan_id;
    }
    ∷ entry_facts ext scan_id fs

row_facts-append :
    (fs gs : List DuplicateFile) → row_facts (fs ++ gs) ≡ row_facts fs ++ row_facts gs
row_facts-append [] gs = refl
row_facts-append (f ∷ fs) gs = ap (λ l. row_facts (f ∷ []) ++ l) (row_facts-append fs gs)

has_path-keep :
    (p : String) (k : ℕ) (fs : List DuplicateFile) (r : DuplicateFile)
    → Member r fs
    → r.path ≡ p
    → nat_beq r.group_id k ≡ false
    → has_path p (keep (λ x. not (nat_beq x.group_id k)) fs) ≡ true
has_path-keep p k [] r m e ne = absurd m
has_path-keep p k (x ∷ fs) r (inl here) e ne =
    let same : x.path ≡ p = ap (λ (y : DuplicateFile). y.path) (sym here) ∙ e in
    let kept : nat_beq x.group_id k ≡ false =
      ap (λ (y : DuplicateFile). nat_beq y.group_id k) (sym here) ∙ ne in
    ground (arith, eq_iff x.path p)
has_path-keep p k (x ∷ fs) r (inr m) e ne = ground (arith, has_path-keep p k fs r m e ne)

pub has_path-append :
    (p : String) (fs gs : List DuplicateFile)
    → has_path p (fs ++ gs) ≡ (has_path p fs || has_path p gs)
has_path-append p [] gs = refl
has_path-append p (f ∷ fs) gs = ground (arith, has_path-append p fs gs)

id_of_hash-append :
    (h : String) (gs : List DuplicateGroup) (g : DuplicateGroup)
    → id_of_hash h gs ≡ none
    → g.content_hash ≡ h
    → id_of_hash h (gs ++ g ∷ []) ≡ some g.id
id_of_hash-append h [] g e f = ground (arith, eq_iff g.content_hash h)
id_of_hash-append h (x ∷ gs) g e f = ground (arith, id_of_hash-append h gs g)

pub id_of_hash-update :
    (h : String) (k : ℕ) (f : DuplicateGroup → DuplicateGroup) (gs : List DuplicateGroup)
    → ((g : DuplicateGroup) → ((f g).id ≡ g.id) × ((f g).content_hash ≡ g.content_hash))
    → id_of_hash h (update_group k f gs) ≡ id_of_hash h gs
id_of_hash-update h k f [] keeps = refl
id_of_hash-update h k f (g ∷ gs) keeps = ground (arith, keeps g, id_of_hash-update h k f gs)

find_group-last :
    (gs : List DuplicateGroup) (g : DuplicateGroup)
    → (r : DuplicateGroup) × (find_group g.id (gs ++ g ∷ []) ≡ some r)
find_group-last [] g = (g, rw ((nat_beq_iff g.id g.id).1 refl))
find_group-last (x ∷ gs) g = elim (Bool-cases (nat_beq x.id g.id)) [
  | inl e ↦ (x, rw e)
  | inr ne ↦ rw ne (find_group-last gs g)
]

find_group-known :
    (h : String) (k : ℕ) (gs : List DuplicateGroup)
    → id_of_hash h gs ≡ some k
    → (r : DuplicateGroup) × (find_group k gs ≡ some r)
find_group-known h k [] e = absurd (cc)
find_group-known h k (x ∷ gs) e = elim (Bool-cases (nat_beq x.id k)) [
  | inl here ↦ (x, rw here)
  | inr ne ↦ rw ne (find_group-known h k gs (ground (arith, nat_beq_iff x.id k)))
]

pub Result-cases {ℓ} :
    {A : Type ℓ} (r : Result A) → ((a : A) × (r ≡ ok a)) ⊎ ((e : WriteError) × (r ≡ err e))
Result-cases (ok a) = inl (a, refl)
Result-cases (err e) = inr (e, refl)

module _ (scan_id now : ℕ) (s : Store) (hash : String) (n : ℕ) (ft : FileType) where
  pub insert_group-find :
      (g : DuplicateGroup) × (find_group
          (insert_group scan_id now s hash n ft).1
          (insert_group scan_id now s hash n ft).0.groups
        ≡ some g)
  unfolding insert_group
  insert_group-find = elim (Option-cases (id_of_hash hash s.groups)) [
    | inl fresh ↦
        let (r, e) =
          find_group-last s.groups (new_group scan_id now (s.last_group_id + 1) hash n ft) in
        (r, ground arith)
    | inr (k, known) ↦ let (r, e) = find_group-known hash k s.groups known in (r, ground arith)
  ]

  insert_group-id :
      id_of_hash hash (insert_group scan_id now s hash n ft).0.groups
      ≡ some (insert_group scan_id now s hash n ft).1
  unfolding insert_group
  insert_group-id = elim (Option-cases (id_of_hash hash s.groups)) [
    | inl fresh ↦
        let g = new_group scan_id now (s.last_group_id + 1) hash n ft in
        ground (arith, id_of_hash-append hash s.groups g, eq_iff hash hash)
    | inr (k, known) ↦ ground arith
  ]

  insert_group-ne :
      (j : ℕ)
      → id_of_hash hash s.groups ≢ some j
      → j ≤ s.last_group_id
      → nat_beq j (insert_group scan_id now s hash n ft).1 ≡ false
  unfolding insert_group
  insert_group-ne j other numbered = elim (Option-cases (id_of_hash hash s.groups)) [
    | inl fresh ↦ ground arith
    | inr (k, known) ↦ let ne : j ≢ k = λ e. other (known ∙ ap some (sym e)) in ground arith
  ]

  pub insert_group-files : (insert_group scan_id now s hash n ft).0.files ≡ s.files
  unfolding insert_group
  insert_group-files = ground arith

module _ (ext : String → String) (scan_id now : ℕ) where
  -- The table of a store after one insert.
  abbrev with_file : ℕ → Store → HashedFile → Store
  with_file group s f = record s {
    files = s.files ++ file_row ext scan_id now (s.last_file_id + 1) group f ∷ [];
    last_file_id = s.last_file_id + 1;
  }

  insert_files-taken :
      (group : ℕ) (s : Store) (fs : List HashedFile) (f : HashedFile) (t : Store)
      → Member f fs
      → has_path f.path s.files ≡ true
      → insert_files ext scan_id now group s fs ≢ ok t
  unfolding insert_files
  insert_files-taken group s [] f t m taken h = absurd m
  insert_files-taken group s (g ∷ fs) f t (inl e) taken h = ground arith
  insert_files-taken group s (g ∷ fs) f t (inr m) taken h = ground (
    arith,
    has_path-append f.path s.files (file_row ext scan_id now (s.last_file_id + 1) group g ∷ []),
    insert_files-taken group (with_file group s g) fs f t m,
  )

  files_of-with_file :
      (group : ℕ) (s : Store) (f : HashedFile)
      → files_of group (with_file group s f).files
        ≡ files_of group s.files ++ file_row ext scan_id now (s.last_file_id + 1) group f ∷ []
  files_of-with_file group s f = rw (keep-append, (nat_beq_iff group group).1 refl)

  files_of-with_file_other :
      (group : ℕ) (s : Store) (f : HashedFile) (j : ℕ)
      → nat_beq group j ≡ false
      → files_of j (with_file group s f).files ≡ files_of j s.files
  files_of-with_file_other group s f j ne = rw (keep-append, ne) (append-nil _)

  -- The inserted rows of the group come behind its old ones, and no other group's rows change.
  insert_files-files :
      (group : ℕ) (s : Store) (fs : List HashedFile) (t : Store)
      → insert_files ext scan_id now group s fs ≡ ok t
      → (row_facts (files_of group t.files)
          ≡ row_facts (files_of group s.files) ++ (entry_facts ext scan_id fs))
        × ((j : ℕ) → nat_beq group j ≡ false → files_of j t.files ≡ files_of j s.files)
        × (t.groups ≡ s.groups)
  unfolding insert_files
  insert_files-files group s [] t h = (
    ground (arith, append-nil (row_facts (files_of group s.files))),
    λ j ne. ground arith,
    ground arith,
  )
  insert_files-files group s (f ∷ fs) t h = elim (Bool-cases (has_path f.path s.files)) [
    | inl taken ↦ absurd (ground arith)
    | inr free ↦
        let s' = with_file group s f in
        let next : insert_files ext scan_id now group s' fs ≡ ok t = ground arith in
        let (own, others, same) = insert_files-files group s' fs t next in
        let old = files_of group s.files in
        (
          own
              ∙ ap (λ l. row_facts l ++ (entry_facts ext scan_id fs)) (files_of-with_file group s f)
              ∙ ap (λ l. l ++ (entry_facts ext scan_id fs)) (row_facts-append old _)
              ∙ append_assoc (row_facts old) (entry_facts ext scan_id (f ∷ []))
                  (entry_facts ext scan_id fs),
          λ j ne. others j ne ∙ files_of-with_file_other group s f j ne,
          same,
        )
  ]

  -- If a group is written, its digest has an id; the rows of files of that id tell exactly its files,
  -- in order; the group's row of that id has their count, the size of the further copies, and the
  -- scan; the rows of files of other ids are as before.
  pub write_group_in_tx_lem :
      (s s' : Store) (t t' : WriteStats) (hash : String) (f : HashedFile) (fs : List HashedFile)
      → write_group_in_tx ext scan_id now (s, t) (record { hash = hash; files = f ∷ fs })
        ≡ ok (s', t')
      → (k : ℕ) × (id_of_hash hash s'.groups ≡ some k)
        × (row_facts (files_of k s'.files) ≡ entry_facts ext scan_id (f ∷ fs))
        × ((j : ℕ) → nat_beq k j ≡ false → files_of j s'.files ≡ files_of j s.files)
        × ((g : DuplicateGroup) × (find_group k s'.groups ≡ some g)
            × (g.file_count ≡ length (f ∷ fs))
            × (g.reclaimable_bytes ≡ reclaimable f.size (f ∷ fs))
            × (g.last_seen_scan_id ≡ scan_id))
  unfolding write_group_in_tx
  write_group_in_tx_lem s s' t t' hash f fs h =
      let ft = detect ext f.path in
      let inserted = insert_group scan_id now s hash f.size ft in
      let k = inserted.1 in
      let cleared : Store = record (inserted.0) {
        files = keep (λ r. not (nat_beq r.group_id k)) inserted.0.files;
      } in
      elim (Result-cases (insert_files ext scan_id now k cleared (f ∷ fs))) [
        | inr (x, failed) ↦ absurd (ground arith)
        | inl (w, done) ↦
            let (own, others, same) = insert_files-files k cleared (f ∷ fs) w done in
            let (g, at) = insert_group-find scan_id now s hash f.size ft in
            let g' = set_statistics scan_id now (f ∷ fs) f.size ft g in
            let none_left : files_of k cleared.files ≡ [] =
              keep-keep_disjoint (λ (r : DuplicateFile). nat_beq r.group_id k)
                (λ r. not (nat_beq r.group_id k)) (λ r e. ground arith) inserted.0.files in
            let files : s'.files ≡ w.files = ground arith in
            let groups : s'.groups
                ≡ update_group k (set_statistics scan_id now (f ∷ fs) f.size ft) inserted.0.groups =
              ground arith in
            (
              k,
              ap (id_of_hash hash) groups
                  ∙ id_of_hash-update hash k (set_statistics scan_id now (f ∷ fs) f.size ft)
                      inserted.0.groups (λ g. (refl, refl))
                  ∙ insert_group-id scan_id now s hash f.size ft,
              ap (λ l. row_facts (files_of k l)) files
                  ∙ own
                  ∙ ap (λ l. row_facts l ++ entry_facts ext scan_id (f ∷ fs)) none_left,
              λ j ne.
                  ap (files_of j) files
                  ∙ others j ne
                  ∙ keep-keep (λ (r : DuplicateFile). nat_beq r.group_id j)
                      (λ r. not (nat_beq r.group_id k)) (λ r e. ground arith) inserted.0.files
                  ∙ ap (files_of j) (insert_group-files scan_id now s hash f.size ft),
              (
                g',
                ap (find_group k) groups
                    ∙ ground (
                      arith,
                      find_group-update k k (set_statistics scan_id now (f ∷ fs) f.size ft)
                          inserted.0.groups (λ g. refl),
                    ),
                refl,
                refl,
                refl,
              ),
            )
      ]

  -- A group fails to be written if one of its paths is in a row of files of another group, as it
  -- is when that file's content has changed since and its old group is not written again.
  pub write_group_in_tx-stale :
      (s : Store) (t : WriteStats) (hash : String) (g : HashedFile) (gs : List HashedFile)
      (f : HashedFile) (r : DuplicateFile) (st : Store × WriteStats)
      → Member f (g ∷ gs)
      → Member r s.files
      → r.path ≡ f.path
      → id_of_hash hash s.groups ≢ some r.group_id
      → r.group_id ≤ s.last_group_id
      → write_group_in_tx ext scan_id now (s, t) (record { hash = hash; files = g ∷ gs }) ≢ ok st
  unfolding write_group_in_tx
  write_group_in_tx-stale s t hash g gs f r st m old same other numbered h =
      let ft = detect ext g.path in
      let inserted = insert_group scan_id now s hash g.size ft in
      let k = inserted.1 in
      let cleared : Store = record (inserted.0) {
        files = keep (λ x. not (nat_beq x.group_id k)) inserted.0.files;
      } in
      let taken : has_path f.path cleared.files ≡ true =
        ap (λ l. has_path f.path (keep (λ x. not (nat_beq x.group_id k)) l))
          (insert_group-files scan_id now s hash g.size ft)
        ∙ has_path-keep f.path k s.files r old same
            (insert_group-ne scan_id now s hash g.size ft r.group_id other numbered) in
      elim (Result-cases (insert_files ext scan_id now k cleared (g ∷ gs))) [
        | inl (w, done) ↦ insert_files-taken k cleared (g ∷ gs) f w m taken done
        | inr (x, failed) ↦ ground arith
      ]
