-- ===== src/Scan/Writer/Collect.antt =====
-- The two phases of RunDBWriter (internal/scan/writer.go): the results are collected by digest while
-- the cache is written progressively; then the digests with two files or more are written.
use ditto.Prelude.{
  ℕ, zero, suc, ◌+◌, ◌%◌, ◌≤◌, ◌≡◌, refl, List, [], ◌∷◌, ◌++◌, append_assoc, append-nil, some, Bool,
  false, String, arith, if◌then◌else◌, leb, keep, keep-append, take, drop, take-append-drop, length,
  ◌==◌, string_key, update, ap, ◌∙◌, sym, Bool-cases, inl, inr,
}
use text.Mathlib.TextEquality.{eq_iff}
use ditto.Scan.Types.{HashedFile, word, unix}
use ditto.Scan.Cache.{FileCache}
use ditto.Tables.{CacheEntry}
use ditto.Scan.Writer.Defs.{
  Store, no_stats, GroupEntry, ok, err, cancelled, TxFaults, Run, write_batches,
}

-- `groups[hf.Hash] = append(groups[hf.Hash], hf)`.
unfoldable pub add_file : HashedFile → List GroupEntry → List GroupEntry
add_file hf [] = record { hash = hf.hash; files = hf ∷ [] } ∷ []
add_file hf (e ∷ es) =
    if e.hash == hf.hash then record e { files = e.files ++ hf ∷ [] } ∷ es else e ∷ add_file hf es

-- The row that a result leaves in file_cache.
abbrev pub cache_entry : ℕ → ℕ → HashedFile → CacheEntry
cache_entry now scan_id hf = record {
  path = hf.path;
  size = hf.size;
  mtime = unix hf.mtime;
  full_hash = hf.hash;
  cached_at = now;
  scan_id = scan_id;
}

-- INSERT OR REPLACE of each file of a batch.
unfoldable pub upsert_all : ℕ → ℕ → FileCache → List HashedFile → FileCache
upsert_all now scan_id cache [] = cache
upsert_all now scan_id cache (f ∷ fs) =
    upsert_all now scan_id (update cache f.path (some (cache_entry now scan_id f))) fs

-- updateCache: a transaction for each `batch_size` files. Fuel is the number of files, which is enough if
-- `batch_size` is positive; if it is 0, the loop of the source does not end, and only the fuel ends it.
unfoldable pub update_cache : ℕ → ℕ → ℕ → ℕ → FileCache → List HashedFile → FileCache
update_cache zero batch_size now scan_id cache files = cache
update_cache (suc fuel) batch_size now scan_id cache [] = cache
update_cache (suc fuel) batch_size now scan_id cache (f ∷ fs) =
    update_cache fuel batch_size now scan_id
      (upsert_all now scan_id cache (take batch_size (f ∷ fs))) (drop batch_size (f ∷ fs))

-- Phase 1: the map, the buffer of results not yet cached, and the table.
pub record Collected : Type 0 where
  pub groups : List GroupEntry
  pub cache_buf : List HashedFile
  pub cache : FileCache

-- flushCache; the database may refuse the `i`-th flush, which is only logged.
module _ (batch_size now scan_id : ℕ) (refuses : ℕ → Bool) where
  unfoldable pub flush_cache : ℕ → Collected → Collected
  flush_cache i c = record c {
    cache_buf = [];
    cache =
        if refuses i
        then c.cache
        else update_cache (length c.cache_buf) batch_size now scan_id c.cache c.cache_buf;
  }

  -- One result: into the map and the buffer, which is flushed when it is full.
  unfoldable pub receive : ℕ → Collected → HashedFile → Collected
  receive i c hf =
      let added : Collected = record c {
        groups = add_file hf c.groups;
        cache_buf = c.cache_buf ++ hf ∷ [];
      } in
      if leb batch_size (length added.cache_buf) then flush_cache i added else added

  -- The loop over the results, and the last flush. Flushes are numbered by the results received.
  unfoldable pub collect : ℕ → Collected → List HashedFile → Collected
  collect i c [] = flush_cache i c
  collect i c (hf ∷ hfs) = collect (i + 1) (receive i c hf) hfs

abbrev pub is_duplicate : GroupEntry → Bool
is_duplicate e = leb 2 (length e.files)

-- The total of files, as `stats.FilesHashed` counts it.
abbrev pub total_files : List GroupEntry → ℕ
total_files [] = 0
total_files (e ∷ es) = length e.files + total_files es

module _ (ext : String → String) (scan_id now : ℕ) (χ : TxFaults) where
  -- persistGroups, over the map's entries in the order of the iteration.
  unfoldable pub persist_groups : ℕ → Store → List GroupEntry → Run
  persist_groups live s es =
      let duplicates = keep is_duplicate es in
      write_batches ext scan_id now χ (length duplicates) live 0
        (record {
          store = s;
          stats = record no_stats { files_hashed = total_files es % word };
          groups_written = 0;
          result = ok tt;
        })
        duplicates

  -- RunDBWriter: `order` is the order in which Go iterates over the map; `done` says whether the
  -- context is done when the input closes, and `live` how many batches begin before it is.
  unfoldable pub run_db_writer :
      (List GroupEntry → List GroupEntry)
      → ℕ
      → (ℕ → Bool)
      → Bool
      → ℕ
      → FileCache
      → Store
      → List HashedFile
      → FileCache × Run
  run_db_writer order batch_size refuses done live cache s xs =
      let c =
        collect batch_size now scan_id refuses 0
          (record { groups = []; cache_buf = []; cache = cache }) xs in
      let stopped : Run = record {
        store = s;
        stats = no_stats;
        groups_written = 0;
        result = err cancelled;
      } in
      (c.cache, if done then stopped else persist_groups live s (order c.groups))

-- The files of a digest in the map.
abbrev pub files_at : String → List GroupEntry → List HashedFile
files_at h [] = []
files_at h (e ∷ es) = if e.hash == h then e.files else files_at h es

abbrev pub of_hash : String → List HashedFile → List HashedFile
of_hash h = keep (λ f. f.hash == h)

files_at-add_file :
    (h : String) (hf : HashedFile) (es : List GroupEntry)
    → files_at h (add_file hf es) ≡ files_at h es ++ of_hash h (hf ∷ [])
unfolding add_file
files_at-add_file h hf [] = ground arith
files_at-add_file h hf (e ∷ es) = ground (
  arith,
  eq_iff e.hash h,
  eq_iff e.hash hf.hash,
  eq_iff hf.hash h,
  append-nil (files_at h es),
  append-nil e.files,
  files_at-add_file h hf es,
)

upsert_all-append :
    (now sc : ℕ) (cache : FileCache) (xs ys : List HashedFile)
    → upsert_all now sc cache (xs ++ ys) ≡ upsert_all now sc (upsert_all now sc cache xs) ys
unfolding upsert_all
upsert_all-append now sc cache [] ys = refl
upsert_all-append now sc cache (x ∷ xs) ys =
    upsert_all-append now sc (update cache x.path (some (cache_entry now sc x))) xs ys

length-drop-le : (n : ℕ) (xs : List HashedFile) → length (drop n xs) ≤ length xs
length-drop-le zero xs = omega arith
length-drop-le (suc n) [] = omega arith
length-drop-le (suc n) (x ∷ xs) = omega (arith, length-drop-le n xs)

-- Whatever the size of the transactions, the cache gets every file of the list.
update_cache-eq-upsert_all :
    (fuel b now sc : ℕ) (cache : FileCache) (xs : List HashedFile)
    → length xs ≤ fuel
    → update_cache fuel (suc b) now sc cache xs ≡ upsert_all now sc cache xs
unfolding update_cache upsert_all
update_cache-eq-upsert_all zero b now sc cache [] h = refl
update_cache-eq-upsert_all zero b now sc cache (x ∷ xs) h = absurd (omega arith)
update_cache-eq-upsert_all (suc fuel) b now sc cache [] h = refl
update_cache-eq-upsert_all (suc fuel) b now sc cache (x ∷ xs) h =
    update_cache-eq-upsert_all fuel b now sc _ (drop b xs) (omega (arith, length-drop-le b xs))
    ∙ sym (upsert_all-append now sc _ (take b xs) (drop b xs))
    ∙ ap (upsert_all now sc _) (take-append-drop b xs)

module _ (b now sc : ℕ) (refuses : ℕ → Bool) where
  pub groups-receive :
      (i : ℕ) (c : Collected) (x : HashedFile)
      → (receive b now sc refuses i c x).groups ≡ add_file x c.groups
  unfolding receive flush_cache
  groups-receive i c x = ground arith

  -- Phase 1 gathers under each digest the results with it, in the order of their arrival.
  pub files_at-collect :
      (i : ℕ) (c : Collected) (xs : List HashedFile) (h : String)
      → files_at h (collect b now sc refuses i c xs).groups ≡ files_at h c.groups ++ of_hash h xs
  unfolding collect flush_cache
  files_at-collect i c [] h = sym (append-nil _)
  files_at-collect i c (x ∷ xs) h =
      files_at-collect (i + 1) (receive b now sc refuses i c x) xs h
      ∙ ap (λ es. files_at h es ++ of_hash h xs) (groups-receive i c x)
      ∙ ap (λ l. l ++ of_hash h xs) (files_at-add_file h x c.groups)
      ∙ append_assoc (files_at h c.groups) (of_hash h (x ∷ [])) (of_hash h xs)
      ∙ ap (λ l. files_at h c.groups ++ l) (sym (keep-append (λ f. f.hash == h) (x ∷ []) xs))

-- The cache once the buffer is written.
abbrev settled : ℕ → ℕ → Collected → FileCache
settled now sc c = upsert_all now sc c.cache c.cache_buf

module _ (b now sc : ℕ) (refuses : ℕ → Bool) (accepts : (i : ℕ) → refuses i ≡ false) where
  cache-flush_cache :
      (i : ℕ) (c : Collected) → (flush_cache (suc b) now sc refuses i c).cache ≡ settled now sc c
  unfolding flush_cache
  cache-flush_cache i c =
      rw (accepts i)
        (update_cache-eq-upsert_all (length c.cache_buf) b now sc c.cache c.cache_buf (omega arith))

  settled-flush_cache :
      (i : ℕ) (c : Collected)
      → settled now sc (flush_cache (suc b) now sc refuses i c) ≡ settled now sc c
  unfolding flush_cache upsert_all
  settled-flush_cache i c = cache-flush_cache i c

  settled-receive :
      (i : ℕ) (c : Collected) (x : HashedFile)
      → settled now sc (receive (suc b) now sc refuses i c x)
        ≡ upsert_all now sc c.cache (c.cache_buf ++ x ∷ [])
  unfolding receive
  settled-receive i c x =
      let added : Collected = record c {
        groups = add_file x c.groups;
        cache_buf = c.cache_buf ++ x ∷ [];
      } in
      elim (Bool-cases (leb (suc b) (length added.cache_buf))) [
        | inl full ↦ rw full (settled-flush_cache i added)
        | inr room ↦ rw room
      ]

  -- The flushes on the way and the last one give the cache of all results.
  pub cache-collect :
      (i : ℕ) (c : Collected) (xs : List HashedFile)
      → (collect (suc b) now sc refuses i c xs).cache
        ≡ upsert_all now sc c.cache (c.cache_buf ++ xs)
  unfolding collect
  cache-collect i c [] =
      cache-flush_cache i c ∙ ap (upsert_all now sc c.cache) (sym (append-nil c.cache_buf))
  cache-collect i c (x ∷ xs) =
      let c' = receive (suc b) now sc refuses i c x in
      cache-collect (i + 1) c' xs
      ∙ upsert_all-append now sc c'.cache c'.cache_buf xs
      ∙ ap (λ m. upsert_all now sc m xs) (settled-receive i c x)
      ∙ sym (upsert_all-append now sc c.cache (c.cache_buf ++ x ∷ []) xs)
      ∙ ap (upsert_all now sc c.cache) (append_assoc c.cache_buf (x ∷ []) xs)
