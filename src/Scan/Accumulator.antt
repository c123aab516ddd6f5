-- ===== src/Scan/Accumulator.antt =====
-- RunSizeAccumulator (internal/scan/accumulator.go): the first file of a size is kept back.
use ditto.Prelude.{
  ℕ, ◌+◌, ◌*◌, ◌%◌, ◌≤◌, ◌≡◌, ◌≢◌, refl, inl, inr, List, [], ◌∷◌, ◌++◌, arith, if◌then◌else◌, leb,
  Bool, true, false, not, length, keep, count_if, count_if-keep, keep-keep, keep-keep_disjoint, ◌∙◌,
  ap, sym, length-append, nat_key, nat_beq, nat_beq_iff, Bool-cases,
}
use ditto.Scan.Types.{FileInfo, Progress, add64, word}
use ditto.Scan.Goroutine.{drive, consume, drive-eq-consume, drive-prefix, operations-le}
use ditto.Scan.Pairing.{
  Pairs, pair_step, no_pairs, of_key, released, of_key-consume, count_if-consume, length-pair_step,
}

pub record Accumulator : Type 0 where
  pub pairs : Pairs ℕ FileInfo
  pub progress : Progress

-- The key of the maps: the size.
abbrev pub size_of : FileInfo → ℕ
size_of fi = fi.size

-- One file: counted as discovered; skipped if it is empty; else what it releases is counted as
-- candidates and sent.
unfoldable pub accumulate : Accumulator → FileInfo → Accumulator × List FileInfo
accumulate s fi =
    let p = s.progress in
    let discovered : Progress = record p { files_discovered = add64 p.files_discovered 1 } in
    let (pairs, sent) = pair_step size_of s.pairs fi in
    if nat_beq fi.size 0 then (record s { progress = discovered }, []) else (
      record {
        pairs = pairs;
        progress = record discovered { candidates_found = add64 p.candidates_found (length sent) };
      },
      sent,
    )

abbrev pub accumulator : Progress → Accumulator
accumulator p = record { pairs = no_pairs size_of; progress = p }

-- The stage over all that arrives on `in`, with `live` channel operations before the context is
-- done: the counters at the end, and what goes to `out`.
unfoldable pub run_size_accumulator : ℕ → Progress → List FileInfo → Accumulator × List FileInfo
run_size_accumulator live p xs = drive accumulate live (accumulator p) xs

abbrev pub is_empty : FileInfo → Bool
is_empty fi = nat_beq fi.size 0

abbrev pub is_nonempty : FileInfo → Bool
is_nonempty fi = not (is_empty fi)

pub consume-accumulate :
    (s : Accumulator) (xs : List FileInfo)
    → (consume accumulate s xs).1 ≡ (consume (pair_step size_of) s.pairs (keep is_nonempty xs)).1
unfolding consume accumulate
consume-accumulate s [] = refl
consume-accumulate s (x ∷ xs) = elim (Bool-cases (is_empty x)) [
  | inl e ↦ rw (consume-accumulate (accumulate s x).0 xs) (rw e)
  | inr f ↦ rw (consume-accumulate (accumulate s x).0 xs) (rw f)
]

length-accumulate : (s : Accumulator) (x : FileInfo) → length (accumulate s x).1 ≤ 2
unfolding accumulate
length-accumulate s x = ground (arith, length-pair_step size_of s.pairs x)

pub run-eq-consume :
    (live : ℕ) (p : Progress) (xs : List FileInfo)
    → 3 * length xs ≤ live
    → run_size_accumulator live p xs ≡ consume accumulate (accumulator p) xs
unfolding run_size_accumulator
run-eq-consume live p xs h =
    drive-eq-consume accumulate live _ xs
      (omega (arith, operations-le accumulate length-accumulate (accumulator p) xs))

accumulate_progress :
    (s : Accumulator) (x : FileInfo)
    → ((accumulate s x).0.progress.files_discovered ≡ add64 s.progress.files_discovered 1)
      × ((accumulate s x).0.progress.candidates_found % word
          ≡ (s.progress.candidates_found + length (accumulate s x).1) % word)
unfolding accumulate
accumulate_progress s x = elim (Bool-cases (is_empty x)) [
  | inl e ↦ rw e (omega arith)
  | inr f ↦ rw f (omega arith)
]

progress-consume :
    (s : Accumulator) (xs : List FileInfo)
    → ((consume accumulate s xs).0.progress.files_discovered % word
        ≡ (s.progress.files_discovered + length xs) % word)
      × ((consume accumulate s xs).0.progress.candidates_found % word
          ≡ (s.progress.candidates_found + length (consume accumulate s xs).1) % word)
unfolding consume
progress-consume s [] = omega arith
progress-consume s (x ∷ xs) =
    let s' = (accumulate s x).0 in
    omega (
      arith,
      accumulate_progress s x,
      progress-consume s' xs,
      length-append (accumulate s x).1 (consume accumulate s' xs).1,
    )

of_size-nonempty :
    (n : ℕ) (xs : List FileInfo)
    → released (of_key size_of n (keep is_nonempty xs))
      ≡ (if nat_beq n 0 then [] else released (of_key size_of n xs))
of_size-nonempty n xs = elim (Bool-cases (nat_beq n 0)) [
  | inl z ↦
      rw
        (keep-keep_disjoint (λ (x : FileInfo). nat_beq x.size n) is_nonempty (λ x t. ground arith)
          xs)
        (rw z)
  | inr f ↦
      rw (keep-keep (λ (x : FileInfo). nat_beq x.size n) is_nonempty (λ x t. ground arith) xs)
        (rw f)
]

count_if-nonempty :
    (p : FileInfo → Bool) (xs : List FileInfo)
    → ((x : FileInfo) → p x ≡ true → is_empty x ≡ false)
    → count_if p (keep is_nonempty xs) ≡ count_if p xs
count_if-nonempty p xs h = count_if-keep p _ (λ x t. ground (arith, h x)) xs

-- In a run that is not cancelled, the files of a size other than 0 that pass a test are sent as
-- often as they arrive if the size arrives at least twice, and never otherwise.
pub count_if-candidates :
    (live : ℕ) (pr : Progress) (xs : List FileInfo) (n : ℕ) (p : FileInfo → Bool)
    → 3 * length xs ≤ live
    → n ≢ 0
    → ((fi : FileInfo) → p fi ≡ true → fi.size ≡ n)
    → count_if p (run_size_accumulator live pr xs).1
      ≡ (if leb 2 (count_if (λ fi. nat_beq fi.size n) xs) then count_if p xs else 0)
count_if-candidates live pr xs n p enough pos sub =
    rw (run-eq-consume live pr xs enough, consume-accumulate)
      (rw (count_if-consume size_of n p (λ a t. (nat_beq_iff a.size n).1 (sub a t))) (
        rw (
          count_if-nonempty (λ fi. nat_beq fi.size n) xs (λ x t. ground arith),
          count_if-nonempty p xs (λ x t. ground (arith, sub x t)),
        )))

-- In a run that is not cancelled, the files of a size other than 0 are all sent, in the order of
-- their arrival, if there are at least two, and none is sent if there is one; no empty file is
-- sent; and the counters grow, as 64-bit words, by the files that arrived and by the files sent.
pub run_size_accumulator_lem :
    (live : ℕ) (pr : Progress) (xs : List FileInfo) (n : ℕ)
    → 3 * length xs ≤ live
    → (of_key size_of n (run_size_accumulator live pr xs).1
        ≡ (if nat_beq n 0 then [] else released (of_key size_of n xs)))
      × ((run_size_accumulator live pr xs).0.progress.files_discovered % word
          ≡ (pr.files_discovered + length xs) % word)
      × ((run_size_accumulator live pr xs).0.progress.candidates_found % word
          ≡ (pr.candidates_found + length (run_size_accumulator live pr xs).1) % word)
run_size_accumulator_lem live pr xs n enough = rw (run-eq-consume live pr xs enough) (
  rw consume-accumulate (of_key-consume size_of n _ ∙ of_size-nonempty n xs),
  (progress-consume (accumulator pr) xs).0,
  (progress-consume (accumulator pr) xs).1,
)

-- Whenever the context is done, what was sent is a prefix of what a run that is not cancelled
-- sends.
pub cancelled-prefix :
    (live : ℕ) (pr : Progress) (xs : List FileInfo)
    → (rest : List FileInfo) × ((run_size_accumulator live pr xs).1 ++ rest
        ≡ (run_size_accumulator (3 * length xs) pr xs).1)
unfolding run_size_accumulator
cancelled-prefix live pr xs =
    let (rest, e) = drive-prefix accumulate live (accumulator pr) xs in
    (rest, e ∙ sym (ap (λ r. r.1) (run-eq-consume (3 * length xs) pr xs (omega arith))))
