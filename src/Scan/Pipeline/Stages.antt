-- ===== src/Scan/Pipeline/Stages.antt =====
-- How often a file passes each stage of the pipeline.
use ditto.Prelude.{
  ℕ, ◌*◌, ◌≤◌, ◌≡◌, refl, List, [], ◌∷◌, Bool, false, not, ◌&&◌, String, arith, if◌then◌else◌, leb,
  length, count_if, count_if-append, string_key, ap, ◌∙◌,
}
use ditto.Disk.{Disk}
use ditto.Scan.Types.{FileInfo, HashedFile}
use ditto.Scan.Goroutine.{drive, consume, drive-eq-consume, operations-le}
use ditto.Scan.Hasher.{
  ReadFaults, HashState, HashResult, hashed, open_error, read_error, hash_partial, hash_full,
  partial_step, full_step, run_partial_hashers, run_full_hashers, run_size_router, route_step,
  partial_hash_bytes, lane, Lane, small, large,
}
use ditto.Scan.Pipeline.Wiring.{in_lane}

-- Does a test pass the file with the hash that a hasher gives?
abbrev pub passes : (HashedFile → Bool) → FileInfo → HashResult → Bool
passes p fi (hashed h n) = p (record { file_info = fi; hash = h })
passes p fi open_error = false
passes p fi read_error = false

module _ (sha : List ℕ → String) (φ : ReadFaults) (d : Disk) (took : String → ℕ)
    (p : HashedFile → Bool) where
  count_if-partial_step :
      (s : HashState) (x : FileInfo)
      → (count_if p (partial_step sha φ d took s x).1
          ≡ (if passes p x (hash_partial sha φ d x.path) then 1 else 0))
        × (length (partial_step sha φ d took s x).1 ≤ 2)
  unfolding partial_step
  count_if-partial_step s x = ground arith

  count_if-full_step :
      (s : HashState) (x : HashedFile)
      → (count_if p (full_step sha φ d took s x).1
          ≡ (if passes p x.file_info (hash_full sha φ d x.path) then 1 else 0))
        × (length (full_step sha φ d took s x).1 ≤ 2)
  unfolding full_step
  count_if-full_step s x = ground arith

count_if-consume :
    {S A B : Type 0} (step : S → A → S × List B) (p : B → Bool) (q : A → Bool)
    → ((s : S) (x : A) → count_if p (step s x).1 ≡ (if q x then 1 else 0))
    → (s : S) (xs : List A) → count_if p (consume step s xs).1 ≡ count_if q xs
unfolding consume
count_if-consume step p q each s [] = refl
count_if-consume step p q each s (x ∷ xs) =
    let s' = (step s x).0 in
    omega (
      arith,
      each s x,
      count_if-append p (step s x).1 (consume step s' xs).1,
      count_if-consume step p q each s' xs,
    )

-- Where a step sends what passes `p` exactly if the item passes `q`, the counts agree.
count_if-drive :
    {S A B : Type 0} (step : S → A → S × List B) (p : B → Bool) (q : A → Bool)
    → ((s : S) (x : A)
        → (count_if p (step s x).1 ≡ (if q x then 1 else 0)) × (length (step s x).1 ≤ 2))
    → (s : S) (xs : List A) → count_if p (drive step (3 * length xs) s xs).1 ≡ count_if q xs
count_if-drive step p q each s xs =
    ap (λ r. count_if p r.1)
      (drive-eq-consume step (3 * length xs) s xs (operations-le step (λ s x. (each s x).1) s xs))
    ∙ count_if-consume step p q (λ s x. (each s x).0) s xs

module _ (sha : List ℕ → String) (φ : ReadFaults) (d : Disk) (took : String → ℕ)
    (p : HashedFile → Bool) where
  pub count_if-run_partial_hashers :
      (s : HashState) (xs : List FileInfo)
      → count_if p (run_partial_hashers sha φ d took (3 * length xs) s xs).1
        ≡ count_if (λ x. passes p x (hash_partial sha φ d x.path)) xs
  unfolding run_partial_hashers
  count_if-run_partial_hashers s xs =
      count_if-drive (partial_step sha φ d took) p _ (count_if-partial_step sha φ d took p) s xs

  pub count_if-run_full_hashers :
      (s : HashState) (xs : List HashedFile)
      → count_if p (run_full_hashers sha φ d took (3 * length xs) s xs).1
        ≡ count_if (λ x. passes p x.file_info (hash_full sha φ d x.path)) xs
  unfolding run_full_hashers
  count_if-run_full_hashers s xs =
      count_if-drive (full_step sha φ d took) p _ (count_if-full_step sha φ d took p) s xs

-- The router as a map.
abbrev lanes_of : List HashedFile → List (Lane × HashedFile)
lanes_of [] = []
lanes_of (x ∷ xs) = (lane x, x) ∷ lanes_of xs

consume-route_step :
    (u : Unit {0}) (xs : List HashedFile) → (consume route_step u xs).1 ≡ lanes_of xs
unfolding consume route_step
consume-route_step u [] = refl
consume-route_step u (x ∷ xs) = ap (◌∷◌ (lane x, x)) (consume-route_step u xs)

length-route_step : (u : Unit {0}) (x : HashedFile) → length (route_step u x).1 ≤ 2
unfolding route_step
length-route_step u x = omega arith

run_size_router-eq-lanes_of :
    (xs : List HashedFile) → run_size_router (3 * length xs) xs ≡ lanes_of xs
unfolding run_size_router
run_size_router-eq-lanes_of xs =
    ap (λ r. r.1)
      (drive-eq-consume route_step (3 * length xs) tt xs
        (operations-le route_step length-route_step tt xs))
    ∙ consume-route_step tt xs

abbrev pub is_small : HashedFile → Bool
is_small x = leb x.size partial_hash_bytes

count_if-lanes_of :
    (p : HashedFile → Bool) (xs : List HashedFile)
    → (count_if p (in_lane small (lanes_of xs)) ≡ count_if (λ x. p x && is_small x) xs)
      × (count_if p (in_lane large (lanes_of xs)) ≡ count_if (λ x. p x && not (is_small x)) xs)
unfolding lane
count_if-lanes_of p [] = (refl, refl)
count_if-lanes_of p (x ∷ xs) =
    (ground (arith, count_if-lanes_of p xs), ground (arith, count_if-lanes_of p xs))

-- The router sends a file to the small lane if it has at most 64 KB, and else to the large one.
pub count_if-run_size_router :
    (p : HashedFile → Bool) (xs : List HashedFile)
    → (count_if p (in_lane small (run_size_router (3 * length xs) xs))
        ≡ count_if (λ x. p x && is_small x) xs)
      × (count_if p (in_lane large (run_size_router (3 * length xs) xs))
          ≡ count_if (λ x. p x && not (is_small x)) xs)
count_if-run_size_router p xs = rw (run_size_router-eq-lanes_of xs) (count_if-lanes_of p xs)
