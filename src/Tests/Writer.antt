-- ===== src/Tests/Writer.antt =====
-- The DB writer (internal/scan/writer.go) on three results, from the results to the tables.
use ditto.Prelude.{
  ℕ, ◌+◌, ◌*◌, ◌%◌, ◌≤◌, ◌≡◌, refl, List, [], ◌∷◌, true, false, String, string_key, ◌==◌, arith,
  length, take, Bool-cases, inl, inr,
}
use mathlib.Core.List.{Permᴰ}
use text.Mathlib.TextEquality.{eq_iff}
use ditto.Scan.Types.{word}
use ditto.Scan.Pipeline.Complete.{empty_cache}
use ditto.Scan.Writer.Defs.{
  Store, WriteStats, no_stats, GroupEntry, Result, ok, err, TxFaults, Run, write_all, write_batches,
  group_batch_size, write_group_in_tx, insert_group, insert_files,
}
use ditto.Scan.Writer.Collect.{run_db_writer, of_hash}
use ditto.Scan.Writer.Insert.{at_path}
use ditto.Scan.Writer.View.{IsNumbered, is_free}
use ditto.Scan.Writer.Batches.{write_batches-prefix, write_batches-eq-write_all}
use ditto.Scan.Writer.Recorded.{IsIteration, MayTake, Recorded, run_db_writer_lem}
use ditto.Tests.Data.{path_a, path_b, path_c}
use ditto.Tests.Tables.{jpg, copy_of, results, other_rows}

abbrev pub no_faults : TxFaults
no_faults = record { begin = λ i. false; commit = λ i. false }

abbrev pub as_listed : List GroupEntry → List GroupEntry
as_listed es = es

pub as_listed-IsIteration : IsIteration as_listed
as_listed-IsIteration [] = Permᴰ.nil
as_listed-IsIteration (e ∷ es) = Permᴰ.cons refl (as_listed-IsIteration es)

-- The table holds a group of another digest, with a row for `path_c`.
numbered : IsNumbered other_rows
numbered = (λ h k e. ground (arith), λ h h' k e e'. ground (arith, eq_iff "old" h, eq_iff "old" h'))

pub apart : (x y z : String) → (x == y) ≡ false → (x == z) ≡ true → (y == z) ≡ false
apart x y z ne h = ground (arith, eq_iff x y, eq_iff x z, eq_iff y z)

once : (p : String) → at_path p results ≤ 1
once p = elim (Bool-cases (path_a == p)) [
  | inl a ↦ rw (a, apart path_a path_b p refl a, apart path_a path_c p refl a) (omega arith)
  | inr no_a ↦ elim (Bool-cases (path_c == p)) [
    | inl c ↦ rw (no_a, c, apart path_c path_b p refl c) (omega arith)
    | inr no_c ↦ elim (Bool-cases (path_b == p)) [
      | inl b ↦ rw (no_a, no_c, b) (omega arith)
      | inr no_b ↦ rw (no_a, no_c, no_b) (omega arith)
    ]
  ]
]

free_if :
    (h p : String) → ("one_two" == h) ≡ true → (path_c == p) ≡ false → is_free other_rows h p ≡ true
free_if h p same ne = rw (apart "one_two" "old" h refl same) (rw ne refl)

lone : (h : String) → ("one_two" == h) ≡ false → length (of_hash h results) ≤ 1
lone h ne = elim (Bool-cases ("other" == h)) [
  | inl same ↦ rw (ne, same) (omega arith)
  | inr differ ↦ rw (ne, differ) (omega arith)
]

away :
    (h p : String)
    → ("one_two" == h) ≡ true
    → (path_c == p) ≡ true
    → at_path p (of_hash h results) ≡ 0
away h p same c =
    rw (same, apart "one_two" "other" h refl same)
      (rw (apart path_c path_a p refl c, apart path_c path_b p refl c) refl)

may_take : MayTake other_rows results
may_take h p two here = elim (Bool-cases ("one_two" == h)) [
  | inr ne ↦ absurd (omega (arith, lone h ne))
  | inl same ↦ elim (Bool-cases (path_c == p)) [
    | inr ne ↦ free_if h p same ne
    | inl c ↦ absurd (omega (arith, away h p same c))
  ]
]

run_db_writer_lem_example :
    Recorded other_rows results
      (run_db_writer jpg 7 50 no_faults as_listed 2
        (λ i. true)
        false
        1
        empty_cache
        other_rows
        results).1
run_db_writer_lem_example =
    run_db_writer_lem jpg 7 50 no_faults (λ i. (refl, refl)) as_listed as_listed-IsIteration 2 1
      (λ i. true) empty_cache other_rows results (omega arith) numbered once may_take (omega arith)

abbrev entries : List GroupEntry
entries = record { hash = "one_two"; files = copy_of path_a ∷ copy_of path_b ∷ [] } ∷ []

abbrev start : Run
start = record { store = other_rows; stats = no_stats; groups_written = 0; result = ok tt }

-- The commit of the first transaction fails.
abbrev no_commit : TxFaults
no_commit = record { begin = λ i. false; commit = λ i. true }

write_batches-prefix_example :
    (n : ℕ) × (t : WriteStats) × (write_all jpg 7 50
        (other_rows, no_stats)
        (take (group_batch_size * n) entries)
      ≡ ok ((write_batches jpg 7 50 no_commit 1 1 0 start entries).store, t))
write_batches-prefix_example = write_batches-prefix jpg 7 50 no_commit 1 1 0 start entries

all_written : Result (Store × WriteStats)
all_written = write_all jpg 7 50 (other_rows, no_stats) entries

abbrev result_of : Result (Store × WriteStats) → Store × WriteStats
result_of (ok st) = st
result_of (err e) = (other_rows, no_stats)

all_written-ok :
    write_all jpg 7 50 (other_rows, no_stats) entries
    ≡ ok ((result_of all_written).0, (result_of all_written).1)
unfolding all_written write_all write_group_in_tx insert_group insert_files ditto.Media.detect
all_written-ok = refl

write_batches-eq-write_all_example :
    write_batches jpg 7 50 no_faults 1 1 0 start entries ≡ record start {
      store = (result_of all_written).0;
      stats = (result_of all_written).1;
      groups_written = (0 + 1) % word;
    }
write_batches-eq-write_all_example =
    write_batches-eq-write_all jpg 7 50 no_faults (λ i. (refl, refl)) 1 1 0 start entries
      (result_of all_written).0 (result_of all_written).1 all_written-ok (omega arith) (omega arith)
      (omega arith)
