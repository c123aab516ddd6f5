-- ===== src/Tests/Stages.antt =====
-- The stages of the pipeline (internal/scan) on a few files.
use ditto.Prelude.{
  ◌≡◌, ◌≤◌, ◌+◌, ◌%◌, List, [], ◌∷◌, some, arith, length, if◌then◌else◌, nat_beq, string_key,
  nat_key,
}
use ditto.Disk.{File}
use ditto.Scan.Types.{HashedFile, new_progress, word}
use ditto.Scan.Pairing.{of_key, released}
use ditto.Scan.Accumulator.{run_size_accumulator, run_size_accumulator_lem, size_of}
use ditto.Scan.Hasher.{partial_hash_bytes}
use ditto.Tests.Data.{disk, walked, path_a, path_b, path_c, info}

abbrev hashed_files : List HashedFile
hashed_files =
    record { file_info = info path_a; hash = "one_two" }
    ∷ record { file_info = info path_c; hash = "other" }
    ∷ record { file_info = info path_b; hash = "one_two" }
    ∷ []

run_size_accumulator_lem_example :
    (of_key size_of 2 (run_size_accumulator 9 new_progress walked).1
      ≡ (if nat_beq 2 0 then [] else released (of_key size_of 2 walked)))
    × ((run_size_accumulator 9 new_progress walked).0.progress.files_discovered % word
        ≡ (new_progress.files_discovered + length walked) % word)
    × ((run_size_accumulator 9 new_progress walked).0.progress.candidates_found % word
        ≡ (new_progress.candidates_found + length (run_size_accumulator 9 new_progress walked).1)
          % word)
run_size_accumulator_lem_example = run_size_accumulator_lem 9 new_progress walked 2 (omega arith)

small_at : (f : File) → disk path_a ≡ some f → length f.content ≤ partial_hash_bytes
small_at f h = ground arith
