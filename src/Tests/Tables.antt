-- ===== src/Tests/Tables.antt =====
-- The DB writer (internal/scan/writer.go) on two copies and a table with an old row.
use ditto.Prelude.{ℕ, ◌≡◌, ◌≢◌, refl, inl, List, [], ◌∷◌, none, some, String, arith, string_key}
use ditto.Scan.Types.{HashedFile}
use ditto.Tables.{DuplicateGroup, DuplicateFile, image, unresolved, find_group, files_of}
use ditto.Media.{detect}
use ditto.Scan.Writer.Defs.{
  Store, WriteStats, no_stats, Result, ok, err, id_of_hash, write_group_in_tx, insert_group,
  insert_files, reclaimable,
}
use ditto.Scan.Writer.Collect.{Collected}
use ditto.Scan.Writer.Group.{row_facts, entry_facts, write_group_in_tx-stale}
use ditto.Scan.Writer.Rows.{write_group_in_tx-own}
use ditto.Scan.Pipeline.Complete.{empty_cache}
use ditto.Tests.Data.{path_a, path_b, path_c, info}

abbrev pub jpg : String → String
jpg p = ".jpg"

abbrev pub copy_of : String → HashedFile
copy_of p = record { file_info = info p; hash = "one_two" }

abbrev pub results : List HashedFile
results = copy_of path_a ∷ record { file_info = info path_c; hash = "other" } ∷ copy_of path_b ∷ []

abbrev nothing_yet : Collected
nothing_yet = record { groups = []; cache_buf = []; cache = empty_cache }

-- A group of an earlier scan, with a row for `path_a`.
abbrev old_group : DuplicateGroup
old_group = record {
  id = 1;
  content_hash = "old";
  file_size = 2;
  file_count = 2;
  reclaimable_bytes = 2;
  file_type = image;
  status = unresolved;
  ignored_at = none;
  resolved_at = none;
  first_seen_scan_id = 1;
  last_seen_scan_id = 1;
  created_at = 10;
  updated_at = 10;
}

abbrev old_row : String → ℕ → DuplicateFile
old_row p k = record {
  id = k;
  group_id = 1;
  scan_id = 1;
  path = p;
  size = 2;
  mtime = 3;
  file_type = image;
}

abbrev stale : Store
stale = record {
  groups = old_group ∷ [];
  files = old_row path_a 1 ∷ old_row path_c 2 ∷ [];
  last_group_id = 1;
  last_file_id = 2;
}

write_group_in_tx-stale_example :
    write_group_in_tx jpg 7 50
      (stale, no_stats)
      (record { hash = "one_two"; files = copy_of path_a ∷ copy_of path_b ∷ [] })
    ≢ ok (stale, no_stats)
write_group_in_tx-stale_example =
    write_group_in_tx-stale jpg 7 50 stale no_stats "one_two" (copy_of path_a) (copy_of path_b ∷ [])
      (copy_of path_a) (old_row path_a 1) (stale, no_stats) (inl refl) (inl refl) refl
      (λ h. ground arith) (omega arith)

-- The same without the stale rows: the group that is written, and what it leaves.
abbrev pub other_rows : Store
other_rows = record {
  groups = old_group ∷ [];
  files = old_row path_c 2 ∷ [];
  last_group_id = 1;
  last_file_id = 2;
}

abbrev written : Result (Store × WriteStats)
written =
    write_group_in_tx jpg 7 50 (other_rows, no_stats)
      (record { hash = "one_two"; files = copy_of path_a ∷ copy_of path_b ∷ [] })

abbrev result_or : Result (Store × WriteStats) → Store × WriteStats
result_or (ok st) = st
result_or (err e) = (other_rows, no_stats)

written-ok : written ≡ ok (result_or written)
unfolding write_group_in_tx insert_group insert_files detect
written-ok = refl

written-id : id_of_hash "one_two" (result_or written).0.groups ≡ some 2
unfolding write_group_in_tx insert_group insert_files detect
written-id = refl

write_group_in_tx-own_example :
    (row_facts (files_of 2 (result_or written).0.files)
      ≡ entry_facts jpg 7 (copy_of path_a ∷ copy_of path_b ∷ []))
    × ((g : DuplicateGroup) × (find_group 2 (result_or written).0.groups ≡ some g)
        × (g.file_count ≡ 2)
        × (g.reclaimable_bytes ≡ reclaimable 2 (copy_of path_a ∷ copy_of path_b ∷ []))
        × (g.last_seen_scan_id ≡ 7))
write_group_in_tx-own_example =
    write_group_in_tx-own jpg 7 50 other_rows (result_or written).0 no_stats (result_or written).1
      "one_two" (copy_of path_a) (copy_of path_b ∷ []) 2 written-ok written-id
