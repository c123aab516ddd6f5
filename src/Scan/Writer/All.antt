-- ===== src/Scan/Writer/All.antt =====
-- writeGroupInTx for all groups of a scan (internal/scan/writer.go), on the view by digests.
use ditto.Prelude.{
  ℕ, ◌+◌, ◌≤◌, ◌≡◌, refl, List, [], ◌∷◌, Option, true, String, arith, if◌then◌else◌, leb, length,
  ◌==◌, string_key, ap, ◌∙◌, ◌≢◌,
}
use text.Mathlib.TextEquality.{eq_iff}
use ditto.Scan.Types.{HashedFile, add64}
use ditto.Scan.Writer.Defs.{
  Store, WriteStats, GroupEntry, ok, reclaimable, write_group_in_tx, write_all,
}
use ditto.Scan.Writer.Insert.{at_path}
use ditto.Scan.Writer.View.{Listed, view, listed_of, IsNumbered, is_free}
use ditto.Scan.Writer.Write.{
  written, written-view, write_group_in_tx-free, written-IsNumbered, written-is_free,
}

-- The sum of a weight over a list.
abbrev pub total : (GroupEntry → ℕ) → List GroupEntry → ℕ
total weight [] = 0
total weight (e ∷ es) = weight e + total weight es

abbrev pub named : String → GroupEntry → ℕ
named h e = if e.hash == h then 1 else 0

abbrev pub holds : String → GroupEntry → ℕ
holds p e = at_path p e.files

-- The files with a path that an entry brings to a digest.
abbrev pub brings : String → String → GroupEntry → ℕ
brings h p e = if e.hash == h then at_path p e.files else 0

abbrev pub hollow : GroupEntry → ℕ
hollow e = if leb (length e.files) 0 then 1 else 0

-- The entries of a map: no digest twice, no path twice, and no entry without a file.
abbrev pub IsOrderly : List GroupEntry → Type 0
IsOrderly es =
    ((h : String) → total (named h) es ≤ 1)
    × ((p : String) → total (holds p) es ≤ 1)
    × (total hollow es ≡ 0)

-- No path of the entries is in a row of another digest's group.
abbrev pub AreFree : Store → List GroupEntry → Type 0
AreFree s es = (h p : String) → 1 ≤ total (brings h p) es → is_free s h p ≡ true

-- What the entries leave of a digest's record: the last one with its digest overwrites it.
abbrev pub recorded : String → List GroupEntry → Option Listed → Option Listed
recorded h [] old = old
recorded h (e ∷ es) old = recorded h es (if e.hash == h then listed_of e.files else old)

-- The bytes that the copies of a group but one take.
abbrev pub bytes_of : List HashedFile → ℕ
bytes_of [] = 0
bytes_of (f ∷ fs) = reclaimable f.size (f ∷ fs)

-- The statistics after the entries.
abbrev pub counted : WriteStats → List GroupEntry → WriteStats
counted t [] = t
counted t (e ∷ es) =
    counted
      (record t {
        duplicate_groups = add64 t.duplicate_groups 1;
        duplicate_files = add64 t.duplicate_files (length e.files);
        reclaimable_bytes = add64 t.reclaimable_bytes (bytes_of e.files);
      })
      es

brings-le-holds : (h p : String) (es : List GroupEntry) → total (brings h p) es ≤ total (holds p) es
brings-le-holds h p [] = omega arith
brings-le-holds h p (e ∷ es) = ground (arith, brings-le-holds h p es)

brings-named :
    (h p : String) (es : List GroupEntry) → total (named h) es ≡ 0 → total (brings h p) es ≡ 0
brings-named h p [] none_named = refl
brings-named h p (e ∷ es) none_named = ground (arith, brings-named h p es)

module _ (ext : String → String) (scan_id now : ℕ) where
  -- What a write does on the view by digests, when its paths are free.
  abbrev Wrote : Store → WriteStats → GroupEntry → Store → Type 0
  Wrote s t e s' =
      (write_group_in_tx ext scan_id now (s, t) e ≡ ok (s', counted t (e ∷ [])))
      × IsNumbered s'
      × ((h : String) → view h s' ≡ (if e.hash == h then listed_of e.files else view h s))
      × ((h p : String)
          → e.hash ≢ h
          → at_path p e.files ≡ 0
          → is_free s h p ≡ true
          → is_free s' h p ≡ true)

  write_one :
      (s : Store) (t : WriteStats) (hash : String) (files : List HashedFile)
      → IsNumbered s
      → hollow (record { hash = hash; files = files }) ≡ 0
      → ((p : String) → at_path p files ≤ 1)
      → ((p : String) → 1 ≤ at_path p files → is_free s hash p ≡ true)
      → (s' : Store) × Wrote s t (record { hash = hash; files = files }) s'
  write_one s t hash [] numbered solid once free = absurd (omega (arith, solid))
  write_one s t hash (f ∷ fs) numbered solid once free = (
    written ext scan_id now s hash f fs,
    (
      write_group_in_tx-free ext scan_id now s hash f fs t once free,
      written-IsNumbered ext scan_id now s hash f fs numbered,
      written-view ext scan_id now s hash f fs numbered,
      written-is_free ext scan_id now s hash f fs,
    ),
  )

  -- Entries of a map whose paths are free are all written, and each digest has the record of its
  -- entry.
  pub write_all_lem :
      (s : Store) (t : WriteStats) (es : List GroupEntry)
      → IsNumbered s
      → IsOrderly es
      → AreFree s es
      → (s' : Store) × (write_all ext scan_id now (s, t) es ≡ ok (s', counted t es))
        × IsNumbered s'
        × ((h : String) → view h s' ≡ recorded h es (view h s))
  unfolding write_all
  write_all_lem s t [] numbered orderly free = (s, refl, numbered, λ h. refl)
  write_all_lem s t (e ∷ es) numbered orderly free =
      let (names, paths, solid) = orderly in
      let (s', (done, numbered', view', free')) =
        write_one s t e.hash e.files numbered (omega (arith, solid)) (λ p. omega (arith, paths p))
          (λ p some_file. free e.hash p (ground (arith, eq_iff e.hash e.hash))) in
      let unique : total (named e.hash) es ≡ 0 =
        ground (arith, names e.hash, eq_iff e.hash e.hash) in
      let later : AreFree s' es = λ h p some_file.
        let differ : e.hash ≢ h =
          λ same. absurd (ground (arith, brings-named h p es, ap (λ x. total (named x) es) same)) in
        let away : at_path p e.files ≡ 0 = omega (arith, paths p, brings-le-holds h p es) in
        free' h p differ away (free h p (omega arith)) in
      let (s'', rest, numbered'', views) =
        write_all_lem s' (counted t (e ∷ [])) es numbered'
          ((λ h. omega (arith, names h)), (λ p. omega (arith, paths p)), omega (arith, solid))
          later in
      (s'', rw done rest, numbered'', λ h. views h ∙ ap (recorded h es) (view' h))
