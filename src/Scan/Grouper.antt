-- ===== src/Scan/Grouper.antt =====
-- RunPartialHashGrouper (internal/scan/grouper.go): the first file of a partial hash is kept back.
use ditto.Prelude.{
  ℕ, ◌*◌, ◌≤◌, ◌≡◌, ap, List, ◌++◌, arith, if◌then◌else◌, leb, Bool, true, String, length, count_if,
  string_key, ◌==◌,
}
use ditto.Scan.Types.{HashedFile}
use ditto.Scan.Goroutine.{drive, consume, drive-eq-consume, drive-prefix, operations-le}
use ditto.Scan.Pairing.{
  pair_step, no_pairs, of_key, released, of_key-consume, count_if-consume, count_if-consume_zero,
  length-pair_step,
}

-- The key of the maps: the hash, which is a partial one here.
abbrev pub hash_of : HashedFile → String
hash_of hf = hf.hash

-- The stage over all that arrives on `in`, with `live` channel operations before the context is
-- done: what goes to `out`.
unfoldable pub run_partial_hash_grouper : ℕ → List HashedFile → List HashedFile
run_partial_hash_grouper live xs = (drive (pair_step hash_of) live (no_pairs hash_of) xs).1

pub run-eq-consume :
    (live : ℕ) (xs : List HashedFile)
    → 3 * length xs ≤ live
    → run_partial_hash_grouper live xs ≡ (consume (pair_step hash_of) (no_pairs hash_of) xs).1
unfolding run_partial_hash_grouper
run-eq-consume live xs h =
    ap (λ r. r.1)
      (drive-eq-consume (pair_step hash_of) live _ xs (
        omega (
          arith,
          operations-le (pair_step hash_of) (length-pair_step hash_of) (no_pairs hash_of) xs,
        )))

-- In a run that is not cancelled, the files that a test passes, all of one partial hash, are sent
-- as often as they arrive if that hash arrives at least twice, and never otherwise.
pub count_if-grouped :
    (live : ℕ) (xs : List HashedFile) (h : String) (p : HashedFile → Bool)
    → 3 * length xs ≤ live
    → ((hf : HashedFile) → p hf ≡ true → (hf.hash == h) ≡ true)
    → count_if p (run_partial_hash_grouper live xs)
      ≡ (if leb 2 (count_if (λ hf. hf.hash == h) xs) then count_if p xs else 0)
count_if-grouped live xs h p enough sub =
    rw (run-eq-consume live xs enough) (count_if-consume hash_of h p sub xs)

-- In a run that is not cancelled, the files of a partial hash are all sent, in the order of their
-- arrival, if there are at least two, and none is sent if there is one; and whenever the context
-- is done instead, what was sent is a prefix of that.
pub run_partial_hash_grouper_lem :
    (live : ℕ) (xs : List HashedFile) (h : String)
    → (of_key hash_of h (run_partial_hash_grouper (3 * length xs) xs)
        ≡ released (of_key hash_of h xs))
      × ((rest : List HashedFile) × (run_partial_hash_grouper live xs ++ rest
            ≡ run_partial_hash_grouper (3 * length xs) xs))
run_partial_hash_grouper_lem live xs h =
    let whole = run-eq-consume (3 * length xs) xs (omega arith) in
    (
      rw whole (of_key-consume hash_of h xs),
      rw whole (unfold run_partial_hash_grouper in drive-prefix (pair_step hash_of) live _ xs),
    )

pub count_if-grouped_zero :
    (live : ℕ) (xs : List HashedFile) (p : HashedFile → Bool)
    → 3 * length xs ≤ live
    → count_if p xs ≡ 0
    → count_if p (run_partial_hash_grouper live xs) ≡ 0
count_if-grouped_zero live xs p enough h =
    rw (run-eq-consume live xs enough)
      (count_if-consume_zero hash_of p (no_pairs hash_of) xs (λ j y e. cc) h)
