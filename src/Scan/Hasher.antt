-- ===== src/Scan/Hasher.antt =====
-- hashPartial, hashFull, RunPartialHashers, RunFullHashers and RunSizeRouter
-- (internal/scan/hasher.go), and the error reporter (newErrorReporter in internal/scan/scan.go).
-- SHA-256 with its hex encoding is the parameter `sha`, and what the system refuses to read `φ`.
use ditto.Prelude.{
  ℕ, ◌*◌, ◌≤◌, ◌≡◌, List, [], ◌∷◌, ◌++◌, none, some, Bool, String, arith, if◌then◌else◌, leb, take,
  length, take_whole, Option-cases, inl, inr,
}
use ditto.Disk.{File, Disk}
use ditto.Scan.Types.{FileInfo, HashedFile, Progress, add64}
use ditto.Scan.Goroutine.{drive}

-- 64 KB.
abbrev pub partial_hash_bytes : ℕ
partial_hash_bytes = 64 * 1024

-- What the partial hash reads of a content.
pub prefix : List ℕ → List ℕ
prefix content = take partial_hash_bytes content

pub prefix_of_short : (c : List ℕ) → length c ≤ partial_hash_bytes → prefix c ≡ c
unfolding prefix
prefix_of_short c h = take_whole c partial_hash_bytes h

pub record ReadFaults : Type 0 where
  pub open_file : String → Bool
  pub read : String → Bool

pub data HashResult : Type 0 where
  hashed : String → ℕ → HashResult
  open_error read_error : HashResult

pub data Stage : Type 0 where
  walk partial_hash full_hash : Stage

-- The counters, and the rows of scan_errors.
pub record HashState : Type 0 where
  pub progress : Progress
  pub reported : List (String × Stage)

-- The ErrorReporter: the counter, and the row.
unfoldable pub report : HashState → String → Stage → HashState
report s path stage =
    let p = s.progress in
    record {
      progress = record p { errors = add64 p.errors 1 };
      reported = s.reported ++ (path, stage) ∷ [];
    }

module _ (sha : List ℕ → String) (φ : ReadFaults) (d : Disk) where
  -- The digest of what `pick` takes of the content, and the bytes that it read.
  digest_of : (List ℕ → List ℕ) → String → HashResult
  digest_of pick path = elim (d path) [
    | none ↦ open_error
    | some f ↦
        if φ.open_file path
        then open_error
        else if φ.read path
        then read_error
        else hashed (sha (pick f.content)) (length (pick f.content))
  ]

  unfoldable pub hash_partial : String → HashResult
  unfolding digest_of
  hash_partial path = digest_of prefix path

  unfoldable pub hash_full : String → HashResult
  unfolding digest_of
  hash_full path = digest_of (λ content. content) path

  -- One file at a partial hasher; `took` is the time of the read in milliseconds.
  unfoldable pub partial_step : (String → ℕ) → HashState → FileInfo → HashState × List HashedFile
  partial_step took s fi =
      let q = s.progress in
      let p : Progress = record q { disk_read_ms = add64 q.disk_read_ms (took fi.path) } in
      let s' : HashState = record s { progress = p } in
      elim (hash_partial fi.path) [
        | open_error ↦ (report s' fi.path partial_hash, [])
        | read_error ↦ (report s' fi.path partial_hash, [])
        | hashed h n ↦ (
          record s' {
            progress = record p {
              bytes_read = add64 p.bytes_read n;
              partial_hashed = add64 p.partial_hashed 1;
            };
          },
          record { file_info = fi; hash = h } ∷ [],
        )
      ]

  -- One file at a full hasher.
  unfoldable pub full_step : (String → ℕ) → HashState → HashedFile → HashState × List HashedFile
  full_step took s hf =
      let q = s.progress in
      let p : Progress = record q { disk_read_ms = add64 q.disk_read_ms (took hf.path) } in
      let s' : HashState = record s { progress = p } in
      elim (hash_full hf.path) [
        | open_error ↦ (report s' hf.path full_hash, [])
        | read_error ↦ (report s' hf.path full_hash, [])
        | hashed h n ↦ (
          record s' {
            progress = record p {
              bytes_read = add64 p.bytes_read n;
              full_hashed = add64 p.full_hashed 1;
            };
          },
          record { file_info = hf.file_info; hash = h } ∷ [],
        )
      ]

  -- The stages, over the items in the order in which their workers take them.
  unfoldable pub run_partial_hashers :
      (String → ℕ) → ℕ → HashState → List FileInfo → HashState × List HashedFile
  run_partial_hashers took live s xs = drive (partial_step took) live s xs

  unfoldable pub run_full_hashers :
      (String → ℕ) → ℕ → HashState → List HashedFile → HashState × List HashedFile
  run_full_hashers took live s xs = drive (full_step took) live s xs

pub data Lane : Type 0 where
  small large : Lane

-- RunSizeRouter: the lane of a file.
unfoldable pub lane : HashedFile → Lane
lane hf = if leb hf.size partial_hash_bytes then small else large

unfoldable pub route_step : Unit {0} → HashedFile → Unit {0} × List (Lane × HashedFile)
unfolding lane
route_step u hf = (u, (lane hf, hf) ∷ [])

unfoldable pub run_size_router : ℕ → List HashedFile → List (Lane × HashedFile)
unfolding route_step
run_size_router live xs = (drive route_step live tt xs).1

digest_of-pick :
    (sha : List ℕ → String) (φ : ReadFaults) (d : Disk) (pick : List ℕ → List ℕ) (path : String)
    → ((f : File) → d path ≡ some f → pick f.content ≡ f.content)
    → digest_of sha φ d pick path ≡ digest_of sha φ d (λ content. content) path
unfolding digest_of
digest_of-pick sha φ d pick path same = elim (Option-cases (d path)) [
  | inl e ↦ ground arith
  | inr (f, e) ↦ ground (arith, same f e)
]

-- A file of at most 64 KB has the same partial and full digest, and both hashers fail alike.
pub hash_partial-eq-hash_full :
    (sha : List ℕ → String) (φ : ReadFaults) (d : Disk) (path : String)
    → ((f : File) → d path ≡ some f → length f.content ≤ partial_hash_bytes)
    → hash_partial sha φ d path ≡ hash_full sha φ d path
unfolding hash_partial hash_full
hash_partial-eq-hash_full sha φ d path short =
    digest_of-pick sha φ d prefix path (λ f e. prefix_of_short f.content (short f e))
