-- ===== src/Tests/Whole.antt =====
-- A scan (internal/scan) of two directories with two copies.
use ditto.Prelude.{
  ℕ, ◌≡◌, ◌≤◌, refl, List, [], ◌∷◌, none, some, String, true, string_key, update, count_if, arith,
  Bool-cases, inl, inr, ◌==◌, length,
}
use ditto.Scan.Types.{HashedFile}
use ditto.Disk.{Disk}
use ditto.Scan.Walker.Files.{files_below, files_in}
use ditto.Scan.Walker.Complete.{found_below_all}
use ditto.Scan.Pipeline.Duplicates.{is_copy, arrives}
use ditto.Scan.Pipeline.Complete.{empty_cache}
use ditto.Scan.Pipeline.Once.{is_at}
use ditto.Scan.Writer.Defs.{ok}
use ditto.Scan.Writer.Collect.{of_hash}
use ditto.Scan.Writer.View.{view, listed_of}
use ditto.Scan.Whole.{scan, scan_complete}
use ditto.Scan.Recorded.{first_scan, scan_recorded}
use ditto.Tests.Tables.{jpg}
use ditto.Tests.Writer.{apart, no_faults, as_listed, as_listed-IsIteration}
use ditto.Tests.Data.{digest, readable, turns, schedule, one_two}
use ditto.Tests.Walker.{tree, weight, finite, roots, steps, calm, all_left}

abbrev copies : Disk
copies = update (update (λ _. none) "/m/a" (some one_two)) "/m/s/b" (some one_two)

abbrev content : List ℕ
content = 1 ∷ 2 ∷ []

two_copies : found_below_all tree weight finite (is_copy copies content) roots ≡ 2
unfolding files_below files_in
two_copies = refl

scan_complete_example :
    count_if
      (arrives digest copies content)
      (scan tree roots steps digest readable copies (λ _. 1) empty_cache turns schedule)
    ≡ found_below_all tree weight finite (is_copy copies content) roots
scan_complete_example =
    scan_complete tree weight finite roots steps digest readable copies (λ _. 1) turns schedule
      content calm (omega arith) all_left (refl, refl, refl) (λ p. (refl, refl)) (λ j. refl)
      (omega arith) (omega (arith, two_copies))

one_place : (p : String) → found_below_all tree weight finite (is_at p) roots ≤ 1
unfolding files_below files_in
one_place p = elim (Bool-cases ("/m/a" == p)) [
  | inl a ↦ rw (a, apart "/m/a" "/m/s/b" p refl a) (omega arith)
  | inr no_a ↦ elim (Bool-cases ("/m/s/b" == p)) [
    | inl b ↦ rw (no_a, b) (omega arith)
    | inr no_b ↦ rw (no_a, no_b) (omega arith)
  ]
]

abbrev delivered : List HashedFile
delivered = scan tree roots steps digest readable copies (λ _. 1) empty_cache turns schedule

scan_recorded_example :
    ((first_scan tree roots steps digest readable copies
        (λ _. 1)
        turns
        schedule
        jpg
        7
        50
        no_faults
        as_listed
        (λ i. true)
        (length delivered)).result
      ≡ ok tt)
    × (view
          (digest content)
          (first_scan tree roots steps digest readable copies
            (λ _. 1)
            turns
            schedule
            jpg
            7
            50
            no_faults
            as_listed
            (λ i. true)
            (length delivered)).store
        ≡ listed_of (of_hash (digest content) delivered))
    × (count_if (arrives digest copies content) (of_hash (digest content) delivered)
        ≡ found_below_all tree weight finite (is_copy copies content) roots)
scan_recorded_example =
    scan_recorded tree weight finite roots steps digest readable copies (λ _. 1) turns schedule calm
      (omega arith) all_left (refl, refl, refl) (λ p. (refl, refl)) (λ j. refl) jpg 7 50
      (length delivered) no_faults as_listed (λ i. true) content (omega arith) (λ i. (refl, refl))
      as_listed-IsIteration one_place (omega arith) (omega arith) (omega (arith, two_copies))
