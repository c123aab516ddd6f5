-- ===== src/Scan/Writer/Defs.antt =====
-- The writer's operations (internal/scan/writer.go). The tables are lists of rows; the unique
-- columns content_hash and path are enforced as the schema says.
use ditto.Prelude.{
  ℕ, zero, suc, ◌+◌, ◌-◌, ◌*◌, ◌%◌, List, [], ◌∷◌, ◌++◌, Option, none, some, Bool, false, not, ◌||◌,
  String, if◌then◌else◌, nat_beq, keep, take, drop, length, ◌==◌, string_key,
}
use ditto.Scan.Types.{HashedFile, add64, word, unix}
use ditto.Tables.{DuplicateGroup, DuplicateFile, FileType, unresolved, update_group}
use ditto.Media.{detect}

abbrev pub group_batch_size : ℕ
group_batch_size = 100

-- The tables, with SQLite's counters of the two that number their rows.
pub record Store : Type 0 where
  pub groups : List DuplicateGroup
  pub files : List DuplicateFile
  pub last_group_id : ℕ
  pub last_file_id : ℕ

pub record WriteStats : Type 0 where
  pub duplicate_groups : ℕ
  pub duplicate_files : ℕ
  pub reclaimable_bytes : ℕ
  pub files_hashed : ℕ

abbrev pub no_stats : WriteStats
no_stats = record {
  duplicate_groups = 0;
  duplicate_files = 0;
  reclaimable_bytes = 0;
  files_hashed = 0;
}

-- A digest with its files.
pub record GroupEntry : Type 0 where
  pub hash : String
  pub files : List HashedFile

pub data WriteError : Type 0 where
  unique_path : String → WriteError
  begin_failed commit_failed cancelled no_files : WriteError

pub data Result {ℓ} (A : Type ℓ) : Type ℓ where
  ok : A → Result A
  err : WriteError → Result A

infixl 5 ◌>>=◌
abbrev pub ◌>>=◌ {ℓ κ} : {A : Type ℓ} {B : Type κ} → Result A → (A → Result B) → Result B
ok a >>= f = f a
err e >>= f = err e

-- SELECT id FROM duplicate_groups WHERE content_hash = ?.
abbrev pub id_of_hash : String → List DuplicateGroup → Option ℕ
id_of_hash h [] = none
id_of_hash h (g ∷ gs) = if g.content_hash == h then some g.id else id_of_hash h gs

abbrev pub has_path : String → List DuplicateFile → Bool
has_path p [] = false
has_path p (f ∷ fs) = (f.path == p) || has_path p fs

-- `fileSize * int64(len(files)-1)`, as a 64-bit word.
abbrev pub reclaimable : ℕ → List HashedFile → ℕ
reclaimable file_size files = (file_size * (length files - 1)) % word

module _ (scan_id now : ℕ) where
  -- The row that a new digest gets, before its statistics.
  abbrev pub new_group : ℕ → String → ℕ → FileType → DuplicateGroup
  new_group k hash file_size file_type = record {
    id = k;
    content_hash = hash;
    file_size = file_size;
    file_count = 0;
    reclaimable_bytes = 0;
    file_type = file_type;
    status = unresolved;
    ignored_at = none;
    resolved_at = none;
    first_seen_scan_id = scan_id;
    last_seen_scan_id = scan_id;
    created_at = now;
    updated_at = now;
  }

  -- INSERT OR IGNORE, then the id of the digest's row.
  unfoldable pub insert_group : Store → String → ℕ → FileType → Store × ℕ
  insert_group s hash file_size file_type = elim (id_of_hash hash s.groups) [
    | some k ↦ (s, k)
    | none ↦ (
      record s {
        groups = s.groups ++ new_group (s.last_group_id + 1) hash file_size file_type ∷ [];
        last_group_id = s.last_group_id + 1;
      },
      s.last_group_id + 1,
    )
  ]

  -- The statistics of a group, set at the end.
  abbrev pub set_statistics : List HashedFile → ℕ → FileType → DuplicateGroup → DuplicateGroup
  set_statistics files file_size file_type g = record g {
    file_count = length files;
    reclaimable_bytes = reclaimable file_size files;
    file_type = file_type;
    last_seen_scan_id = scan_id;
    updated_at = now;
  }

module _ (ext : String → String) (scan_id now : ℕ) where
  -- The row of a file.
  abbrev pub file_row : ℕ → ℕ → HashedFile → DuplicateFile
  file_row k group f = record {
    id = k;
    group_id = group;
    scan_id = scan_id;
    path = f.path;
    size = f.size;
    mtime = unix f.mtime;
    file_type = detect ext f.path;
  }

  -- The inserts of a group's files; one whose path is in the table fails.
  unfoldable pub insert_files : ℕ → Store → List HashedFile → Result Store
  insert_files group s [] = ok s
  insert_files group s (f ∷ fs) =
      let s' : Store = record s {
        files = s.files ++ file_row (s.last_file_id + 1) group f ∷ [];
        last_file_id = s.last_file_id + 1;
      } in
      let rest = insert_files group s' fs in
      if has_path f.path s.files then err (unique_path f.path) else rest

  -- writeGroupInTx, for the files `f ∷ fs` of a digest; without a file it would panic.
  unfoldable pub write_group_in_tx : Store × WriteStats → GroupEntry → Result (Store × WriteStats)
  write_group_in_tx (s, t) e = elim e.files [
    | [] ↦ err no_files
    | f ∷ fs ↦ do
      let file_type = detect ext f.path
      let inserted = insert_group scan_id now s e.hash f.size file_type
      let cleared : Store = record (inserted.0) {
        files = keep (λ r. not (nat_beq r.group_id inserted.1)) inserted.0.files;
      }
      written ← insert_files inserted.1 cleared (f ∷ fs)
      ok (
        record written {
          groups =
              update_group inserted.1 (set_statistics scan_id now (f ∷ fs) f.size file_type)
                written.groups;
        },
        record t {
          duplicate_groups = add64 t.duplicate_groups 1;
          duplicate_files = add64 t.duplicate_files (length (f ∷ fs));
          reclaimable_bytes = add64 t.reclaimable_bytes (reclaimable f.size (f ∷ fs));
        },
      )
  ]

  unfoldable pub write_all : Store × WriteStats → List GroupEntry → Result (Store × WriteStats)
  write_all st [] = ok st
  write_all st (e ∷ es) = do st' ← write_group_in_tx st e; write_all st' es

-- A transaction: what the database does to the `i`-th one.
pub record TxFaults : Type 0 where
  pub begin : ℕ → Bool
  pub commit : ℕ → Bool

-- The tables that stand after a run, what it returns, and the statistics.
pub record Run : Type 0 where
  pub store : Store
  pub stats : WriteStats
  pub groups_written : ℕ
  pub result : Result (Unit {0})

module _ (ext : String → String) (scan_id now : ℕ) (χ : TxFaults) where
  -- writeGroupBatch: all groups of the batch in one transaction, which an error rolls back.
  -- (The statistics in memory keep what the failing transaction had counted; they are returned
  -- beside the error, and not read.)
  unfoldable pub write_group_batch :
      ℕ → Store → WriteStats → List GroupEntry → Result (Store × WriteStats)
  write_group_batch i s t batch = if χ.begin i then err begin_failed else do
    st ← write_all ext scan_id now (s, t) batch
    if χ.commit i then err commit_failed else ok st

  -- The loop of persistGroups; the context is found done before the batch `live`.
  unfoldable pub write_batches : ℕ → ℕ → ℕ → Run → List GroupEntry → Run
  write_batches zero live i r es = r
  write_batches (suc fuel) live i r [] = r
  write_batches (suc fuel) live i r (e ∷ es) =
      let batch = take group_batch_size (e ∷ es) in
      elim live [
        | zero ↦ record r { result = err cancelled }
        | suc live' ↦ elim (write_group_batch i r.store r.stats batch) [
          | err x ↦ record r { result = err x }
          | ok (s, t) ↦
              write_batches fuel live' (i + 1)
                (record r {
                  store = s;
                  stats = t;
                  groups_written = add64 r.groups_written (length batch);
                })
                (drop group_batch_size (e ∷ es))
        ]
      ]
