-- ===== src/Scan/Writer/Rows.antt =====
-- The rows that writeGroupInTx (internal/scan/writer.go) leaves.
use ditto.Prelude.{
  ℕ, ◌≡◌, List, ◌∷◌, Option, none, some, false, String, nat_beq, length, ap, sym, ◌∙◌,
}
use ditto.Scan.Types.{HashedFile}
use ditto.Tables.{DuplicateGroup, find_group, files_of}
use ditto.Scan.Writer.Defs.{Store, WriteStats, ok, id_of_hash, reclaimable, write_group_in_tx}
use ditto.Scan.Writer.Group.{row_facts, entry_facts, write_group_in_tx_lem}

abbrev or_else : ℕ → Option ℕ → ℕ
or_else k none = k
or_else k (some j) = j

some_injective : (j k : ℕ) → some j ≡ some k → j ≡ k
some_injective j k h = ap (or_else j) h

module _ (ext : String → String) (scan_id now : ℕ) (s s' : Store) (t t' : WriteStats)
    (hash : String) (f : HashedFile) (fs : List HashedFile) (k : ℕ) where
  -- If a group is written and its digest has the id `k`, the rows of files of that id are one for each
  -- of its files, in order, with the file's path, size, time in seconds, type by extension and the
  -- scan; and the group's row of that id has their count, the file size for each further copy as a
  -- 64-bit word, and the scan.
  pub write_group_in_tx-own :
      write_group_in_tx ext scan_id now (s, t) (record { hash = hash; files = f ∷ fs })
        ≡ ok (s', t')
      → id_of_hash hash s'.groups ≡ some k
      → (row_facts (files_of k s'.files) ≡ entry_facts ext scan_id (f ∷ fs))
        × ((g : DuplicateGroup) × (find_group k s'.groups ≡ some g)
            × (g.file_count ≡ length (f ∷ fs))
            × (g.reclaimable_bytes ≡ reclaimable f.size (f ∷ fs))
            × (g.last_seen_scan_id ≡ scan_id))
  write_group_in_tx-own h at =
      let (j, own, paths, others, (g, row, count, bytes, seen)) =
        write_group_in_tx_lem ext scan_id now s s' t t' hash f fs h in
      let same : j ≡ k = some_injective j k (sym own ∙ at) in
      (
        ap (λ i. row_facts (files_of i s'.files)) (sym same) ∙ paths,
        (g, ap (λ i. find_group i s'.groups) (sym same) ∙ row, count, bytes, seen),
      )

  -- If a group is written and its digest has the id `k`, the rows of files of every other id are as
  -- before.
  pub write_group_in_tx-other :
      (j : ℕ)
      → write_group_in_tx ext scan_id now (s, t) (record { hash = hash; files = f ∷ fs })
        ≡ ok (s', t')
      → id_of_hash hash s'.groups ≡ some k
      → nat_beq k j ≡ false
      → files_of j s'.files ≡ files_of j s.files
  write_group_in_tx-other j h at ne =
      let (i, own, paths, others, rest) =
        write_group_in_tx_lem ext scan_id now s s' t t' hash f fs h in
      let same : i ≡ k = some_injective i k (sym own ∙ at) in
      others j (ap (λ i'. nat_beq i' j) same ∙ ne)
