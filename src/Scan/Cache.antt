-- ===== src/Scan/Cache.antt =====
-- RunCacheCheck, cacheWorker, drainBatch and lookupBatch (internal/scan/cache.go). The table
-- file_cache is a map from its primary key, the path.
use ditto.Prelude.{
  ℕ, zero, suc, ◌+◌, ◌-◌, ◌≤◌, ◌≡◌, refl, List, [], ◌∷◌, ◌++◌, append_assoc, append-nil, subst,
  Option, none, some, Bool, false, ◌&&◌, String, arith, if◌then◌else◌, nat_beq, take, drop, length,
  min, take-append-drop, ap, ◌∙◌, sym,
}
use ditto.Scan.Types.{FileInfo, HashedFile, Progress, add64, unix}
use ditto.Tables.{CacheEntry}

abbrev pub cache_batch_size : ℕ
cache_batch_size = 500

abbrev pub FileCache : Type 0
FileCache = String → Option CacheEntry

-- Where a file goes: to hits with the stored hash, or to misses.
pub data Route : Type 0 where
  hit : HashedFile → Route
  miss : FileInfo → Route

-- One file of a batch, against the rows that the query gave.
unfoldable pub route : FileCache → FileInfo → Route
route cached fi = elim (cached fi.path) [
  | none ↦ miss fi
  | some e ↦
      if nat_beq e.size fi.size && nat_beq e.mtime (unix fi.mtime)
      then hit (record { file_info = fi; hash = e.full_hash })
      else miss fi
]

-- The two output channels, and the counters.
pub record Routed : Type 0 where
  pub hits : List HashedFile
  pub misses : List FileInfo
  pub progress : Progress

-- The send of a file, and its counter.
unfoldable pub send : Routed → Route → Routed
send s (hit hf) =
    let p = s.progress in
    record {
      hits = s.hits ++ hf ∷ [];
      misses = s.misses;
      progress = record p { cache_hits = add64 p.cache_hits 1 };
    }
send s (miss fi) =
    let p = s.progress in
    record {
      hits = s.hits;
      misses = s.misses ++ fi ∷ [];
      progress = record p { cache_misses = add64 p.cache_misses 1 };
    }

-- The loop of lookupBatch over a batch.
route_all : FileCache → Routed → List FileInfo → Routed
route_all cached s [] = s
route_all cached s (fi ∷ fis) = route_all cached (send s (route cached fi)) fis

-- lookupBatch: a query that fails finds no row, an error after some of the rows is not told apart from the
-- end of the rows. `took` is the time of the query.
unfoldable pub lookup_batch : FileCache → Bool → ℕ → Routed → List FileInfo → Routed
unfolding route_all
lookup_batch cache fails took s [] = s
lookup_batch cache fails took s (fi ∷ fis) =
    let p = s.progress in
    let queried : Routed = record s {
      progress = record p { db_read_ms = add64 p.db_read_ms took };
    } in
    let cached : FileCache = if fails then (λ _. none) else cache in
    route_all cached queried (fi ∷ fis)

-- drainBatch: after the first file, `ready` more can be received without blocking.
unfoldable pub drain_batch : ℕ → List FileInfo → List FileInfo × List FileInfo
drain_batch ready xs =
    (take (min ready (cache_batch_size - 1)) xs, drop (min ready (cache_batch_size - 1)) xs)

-- What a worker meets at a batch: the files that are ready, whether the query fails, its time.
pub record Turn : Type 0 where
  pub ready : ℕ
  pub fails : Bool
  pub took : ℕ

-- cacheWorker, of a scan that is not cancelled (its exits for a context that is done are left out): a batch
-- for each turn, until the input is closed. Fuel is the number of files.
unfoldable pub cache_worker : ℕ → FileCache → (ℕ → Turn) → ℕ → Routed → List FileInfo → Routed
cache_worker zero cache turns i s xs = s
cache_worker (suc fuel) cache turns i s [] = s
cache_worker (suc fuel) cache turns i s (x ∷ xs) =
    let t = turns i in
    let (batch, rest) = drain_batch t.ready xs in
    cache_worker fuel cache turns (i + 1) (lookup_batch cache t.fails t.took s (x ∷ batch)) rest

-- RunCacheCheck, of a scan that is not cancelled. Several workers are the mixing of the pipeline.
unfoldable pub run_cache_check : FileCache → (ℕ → Turn) → Progress → List FileInfo → Routed
run_cache_check cache turns p xs =
    cache_worker (length xs) cache turns 0 (record { hits = []; misses = []; progress = p }) xs

abbrev pub hits_cons : Route → List HashedFile → List HashedFile
hits_cons (hit hf) hs = hf ∷ hs
hits_cons (miss fi) hs = hs

abbrev pub misses_cons : Route → List FileInfo → List FileInfo
misses_cons (hit hf) ms = ms
misses_cons (miss fi) ms = fi ∷ ms

-- The files that hit the cache, with the stored hashes, and those that do not.
abbrev pub hits_of : FileCache → List FileInfo → List HashedFile
hits_of cache [] = []
hits_of cache (x ∷ xs) = hits_cons (route cache x) (hits_of cache xs)

abbrev pub misses_of : FileCache → List FileInfo → List FileInfo
misses_of cache [] = []
misses_of cache (x ∷ xs) = misses_cons (route cache x) (misses_of cache xs)

-- `t` has sent, after `s`, these hits and misses.
abbrev Sends : Routed → Routed → List HashedFile → List FileInfo → Type 0
Sends s t hs ms = (t.hits ≡ s.hits ++ hs) × (t.misses ≡ s.misses ++ ms)

cons-Sends :
    (s t : Routed) (r : Route) (hs : List HashedFile) (ms : List FileInfo)
    → Sends (send s r) t hs ms
    → Sends s t (hits_cons r hs) (misses_cons r ms)
unfolding send
cons-Sends s t (hit hf) hs ms h = (h.0 ∙ append_assoc s.hits (hf ∷ []) hs, h.1)
cons-Sends s t (miss fi) hs ms h = (h.0, h.1 ∙ append_assoc s.misses (fi ∷ []) ms)

route_all-Sends :
    (cached : FileCache) (s : Routed) (xs : List FileInfo)
    → Sends s (route_all cached s xs) (hits_of cached xs) (misses_of cached xs)
unfolding route_all
route_all-Sends cached s [] = (sym (append-nil s.hits), sym (append-nil s.misses))
route_all-Sends cached s (x ∷ xs) =
    let r = route cached x in
    cons-Sends s (route_all cached (send s r) xs) r (hits_of cached xs) (misses_of cached xs)
      (route_all-Sends cached (send s r) xs)

hits_of-append :
    (c : FileCache) (xs ys : List FileInfo) → hits_of c (xs ++ ys) ≡ hits_of c xs ++ hits_of c ys
hits_of-append c [] ys = refl
hits_of-append c (x ∷ xs) ys = ground (arith, hits_of-append c xs ys)

misses_of-append :
    (c : FileCache) (xs ys : List FileInfo)
    → misses_of c (xs ++ ys) ≡ misses_of c xs ++ misses_of c ys
misses_of-append c [] ys = refl
misses_of-append c (x ∷ xs) ys = ground (arith, misses_of-append c xs ys)

lookup_batch-Sends :
    (cache : FileCache) (took : ℕ) (s : Routed) (xs : List FileInfo)
    → Sends s (lookup_batch cache false took s xs) (hits_of cache xs) (misses_of cache xs)
unfolding lookup_batch
lookup_batch-Sends cache took s [] = (sym (append-nil s.hits), sym (append-nil s.misses))
lookup_batch-Sends cache took s (x ∷ xs) = route_all-Sends cache _ (x ∷ xs)

Sends-trans :
    (s t u : Routed) (hs hs' : List HashedFile) (ms ms' : List FileInfo)
    → Sends s t hs ms
    → Sends t u hs' ms'
    → Sends s u (hs ++ hs') (ms ++ ms')
Sends-trans s t u hs hs' ms ms' p q = (
  q.0 ∙ ap (λ l. l ++ hs') p.0 ∙ append_assoc s.hits hs hs',
  q.1 ∙ ap (λ l. l ++ ms') p.1 ∙ append_assoc s.misses ms ms',
)

length-drop-le : (n : ℕ) (xs : List FileInfo) → length (drop n xs) ≤ length xs
length-drop-le zero xs = omega arith
length-drop-le (suc n) [] = omega arith
length-drop-le (suc n) (x ∷ xs) = omega (arith, length-drop-le n xs)

-- The batch and the rest are the input, and the rest is no longer.
drain_batch_lem :
    (ready : ℕ) (xs : List FileInfo)
    → ((drain_batch ready xs).0 ++ (drain_batch ready xs).1 ≡ xs)
      × (length (drain_batch ready xs).1 ≤ length xs)
unfolding drain_batch
drain_batch_lem ready xs = (take-append-drop _ xs, length-drop-le _ xs)

cache_worker-Sends :
    (fuel : ℕ) (cache : FileCache) (turns : ℕ → Turn) (i : ℕ) (s : Routed) (xs : List FileInfo)
    → length xs ≤ fuel
    → ((j : ℕ) → (turns j).fails ≡ false)
    → Sends s (cache_worker fuel cache turns i s xs) (hits_of cache xs) (misses_of cache xs)
unfolding cache_worker
cache_worker-Sends zero cache turns i s [] h ok =
    (sym (append-nil s.hits), sym (append-nil s.misses))
cache_worker-Sends zero cache turns i s (x ∷ xs) h ok = absurd (omega arith)
cache_worker-Sends (suc fuel) cache turns i s [] h ok =
    (sym (append-nil s.hits), sym (append-nil s.misses))
cache_worker-Sends (suc fuel) cache turns i s (x ∷ xs) h ok =
    let t = turns i in
    let batch = (drain_batch t.ready xs).0 in
    let rest = (drain_batch t.ready xs).1 in
    let whole = drain_batch_lem t.ready xs in
    let shorter : length rest ≤ length xs = whole.1 in
    let s' = lookup_batch cache t.fails t.took s (x ∷ batch) in
    let hs = hits_of cache (x ∷ batch) in
    let ms = misses_of cache (x ∷ batch) in
    let first : Sends s s' hs ms =
      subst (λ b. Sends s (lookup_batch cache b t.took s (x ∷ batch)) hs ms) (sym (ok i))
        (lookup_batch-Sends cache t.took s (x ∷ batch)) in
    let later = cache_worker-Sends fuel cache turns (i + 1) s' rest (omega (arith, shorter)) ok in
    let (sent_hits, sent_misses) =
      Sends-trans s s' (cache_worker fuel cache turns (i + 1) s' rest) hs (hits_of cache rest) ms
        (misses_of cache rest) first later in
    (
      sent_hits
          ∙ ap (λ l. s.hits ++ l)
              (sym (hits_of-append cache (x ∷ batch) rest)
                ∙ ap (λ l. hits_of cache (x ∷ l)) whole.0),
      sent_misses
          ∙ ap (λ l. s.misses ++ l)
              (sym (misses_of-append cache (x ∷ batch) rest)
                ∙ ap (λ l. misses_of cache (x ∷ l)) whole.0),
    )

pub run_cache_check_lem :
    (cache : FileCache) (turns : ℕ → Turn) (p : Progress) (xs : List FileInfo)
    → ((j : ℕ) → (turns j).fails ≡ false)
    → ((run_cache_check cache turns p xs).hits ≡ hits_of cache xs)
      × ((run_cache_check cache turns p xs).misses ≡ misses_of cache xs)
unfolding run_cache_check
run_cache_check_lem cache turns p xs ok =
    cache_worker-Sends (length xs) cache turns 0 _ xs (omega arith) ok
