-- ===== src/Scan/Types.antt =====
-- The items that the pipeline passes on (internal/scan/scan.go) and its counters
-- (internal/scan/progress.go). A time is a number of nanoseconds since 1970.
use ditto.Prelude.{ℕ, String, ◌+◌, ◌/◌, ◌%◌, ◌^◌}

-- Addition and multiplication of 64-bit words, which wrap.
abbrev pub word : ℕ
word = 2 ^ 64

abbrev pub add64 : ℕ → ℕ → ℕ
add64 a b = (a + b) % word

-- `time.Time.Unix` for a time that is not before 1970.
abbrev pub unix : ℕ → ℕ
unix t = t / 1_000_000_000

pub record FileInfo : Type 0 where
  pub path : String
  pub size : ℕ
  pub mtime : ℕ

pub record HashedFile : Type 0 where
  pub file_info : FileInfo
  pub open file_info use *
  pub hash : String

pub record Progress : Type 0 where
  pub files_discovered : ℕ
  pub candidates_found : ℕ
  pub partial_hashed : ℕ
  pub full_hashed : ℕ
  pub bytes_read : ℕ
  pub cache_hits : ℕ
  pub cache_misses : ℕ
  pub errors : ℕ
  pub phase2_started_at : ℕ
  pub groups_total : ℕ
  pub groups_written : ℕ
  pub disk_read_ms : ℕ
  pub db_read_ms : ℕ
  pub db_write_ms : ℕ

-- A new scan's counters (`&Progress{}`).
abbrev pub new_progress : Progress
new_progress = record {
  files_discovered = 0;
  candidates_found = 0;
  partial_hashed = 0;
  full_hashed = 0;
  bytes_read = 0;
  cache_hits = 0;
  cache_misses = 0;
  errors = 0;
  phase2_started_at = 0;
  groups_total = 0;
  groups_written = 0;
  disk_read_ms = 0;
  db_read_ms = 0;
  db_write_ms = 0;
}
