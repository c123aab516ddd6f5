-- ===== src/Scan/Handlers.antt =====
-- ScansHandler (internal/api/handlers/scans.go). Floating-point numbers, strconv's numbers, the format of
-- a time and the order of the query's rows are parameters.
use ditto.Prelude.{
  ℕ, ◌^◌, List, [], ◌∷◌, Option, none, some, Bool, ◌&&◌, String, ℤ, if◌then◌else◌, ltb, nat_beq,
  keep, take, drop, length,
}
use ditto.Scan.Types.{add64, unix}
use ditto.Scan.Records.{ScanRow, ScanStatus, ScanTrigger, manual, find_row}
use ditto.Scan.Manager.{Manager, started, already_running, record_failed, start, cancel}
use ditto.Trash.Handlers.{parse_pagination}

-- float64, with the number of a signed 64-bit integer, given as its word.
pub record Floats : Type 1 where
  pub Float : Type 0
  pub of_int : ℕ → Float
  pub times : Float → Float → Float
  pub divided : Float → Float → Float

-- A row of scan_errors.
pub record ScanError : Type 0 where
  pub scan_id : ℕ
  pub path : String
  pub stage : String
  pub error : String
  pub occurred_at : ℕ

-- errItem.
pub record ErrorItem : Type 0 where
  pub path : String
  pub stage : String
  pub error : String
  pub occurred_at : String

-- A sum of two counters is a signed 64-bit integer.
abbrev pub is_positive : ℕ → Bool
is_positive n = ltb 0 n && ltb n (2 ^ 63)

module _ (Float : Type 0) where
  -- scanItem, which scanDetail repeats.
  pub record ScanItem : Type 0 where
    pub id : ℕ
    pub started_at : String
    pub finished_at : Option String
    pub status : ScanStatus
    pub triggered_by : ScanTrigger
    pub files_discovered : ℕ
    pub files_hashed : ℕ
    pub cache_hits : ℕ
    pub cache_misses : ℕ
    pub cache_hit_rate : Float
    pub duplicate_groups : ℕ
    pub duplicate_files : ℕ
    pub reclaimable_bytes : ℕ
    pub errors : ℕ
    pub duration_seconds : Option ℕ

  -- telemetryResponse.
  pub record Telemetry : Type 0 where
    pub scan_id : ℕ
    pub started_at : String
    pub finished_at : Option String
    pub status : ScanStatus
    pub triggered_by : ScanTrigger
    pub duration_seconds : ℕ
    pub files_discovered : ℕ
    pub files_hashed : ℕ
    pub cache_hits : ℕ
    pub cache_misses : ℕ
    pub duplicate_groups : ℕ
    pub duplicate_files : ℕ
    pub reclaimable_bytes : ℕ
    pub errors : ℕ
    pub bytes_read_mb : Float
    pub disk_read_ms : ℕ
    pub db_read_ms : ℕ
    pub db_write_ms : ℕ
    pub total_timing_ms : ℕ
    pub files_per_sec : Float
    pub candidate_pct : Float
    pub cache_hit_pct : Float
    pub hash_throughput_mbps : Float
    pub disk_pct : Float
    pub db_write_pct : Float
    pub db_read_pct : Float

  pub data Reply : Type 0 where
    invalid_id not_found internal_error scan_already_running no_active_scan : Reply
    -- the id, the time of the start and the trigger
    accepted : ℕ → String → ScanTrigger → Reply
    -- the id, and the times of the start and of the answer
    cancelled_scan : ℕ → String → String → Reply
    -- the items, their number in all, the limit and the offset
    page : List ScanItem → ℕ → ℕ → ℕ → Reply
    detail : ScanItem → List ErrorItem → Reply
    telemetry_of : Telemetry → Reply

-- A duration that is not known counts as 0.
abbrev pub or_zero : Option ℕ → ℕ
or_zero none = 0
or_zero (some n) = n

module _ (F : Floats) where
  open F use {Float, of_int, times, divided}

  -- `part * 100 / whole`, if there is a whole.
  unfoldable pub percent : ℕ → ℕ → Float
  percent part whole =
      if is_positive whole
      then divided (times (of_int part) (of_int 100)) (of_int whole)
      else of_int 0

  module _ (rfc3339 : ℕ → String) where
    abbrev pub time_or : Option ℕ → Option String
    time_or none = none
    time_or (some t) = some (rfc3339 t)

    -- `float64(hits) / float64(total)`, if there is a total.
    unfoldable pub hit_rate : ℕ → ℕ → Float
    hit_rate hits misses =
        let total = add64 hits misses in
        if is_positive total then divided (of_int hits) (of_int total) else of_int 0

    unfoldable pub item_of : ScanRow → ScanItem Float
    item_of r = record {
      id = r.id;
      started_at = rfc3339 r.started_at;
      finished_at = time_or r.finished_at;
      status = r.status;
      triggered_by = r.triggered_by;
      files_discovered = r.files_discovered;
      files_hashed = r.files_hashed;
      cache_hits = r.cache_hits;
      cache_misses = r.cache_misses;
      cache_hit_rate = hit_rate r.cache_hits r.cache_misses;
      duplicate_groups = r.duplicate_groups;
      duplicate_files = r.duplicate_files;
      reclaimable_bytes = r.reclaimable_bytes;
      errors = r.errors;
      duration_seconds = r.duration_seconds;
    }

    abbrev pub items_of : List ScanRow → List (ScanItem Float)
    items_of [] = []
    items_of (r ∷ rs) = item_of r ∷ items_of rs

    abbrev pub error_items : List ScanError → List ErrorItem
    error_items [] = []
    error_items (e ∷ es) =
        record {
          path = e.path;
          stage = e.stage;
          error = e.error;
          occurred_at = rfc3339 e.occurred_at;
        }
        ∷ error_items es

    -- Create: a manual scan, at the time `now`; `refused` says whether the database refuses the record.
    unfoldable pub create : Manager → Bool → ℕ → Manager × Reply Float
    create m refused now =
        let (m', result) = start m refused now manual in
        (
          m',
          elim result [
            | started a ↦ accepted a.id (rfc3339 (unix a.started_at)) a.triggered_by
            | already_running ↦ scan_already_running
            | record_failed ↦ internal_error
          ],
        )

    -- Cancel.
    unfoldable pub cancel_current : Manager → ℕ → Manager × Reply Float
    cancel_current m now =
        let (m', snap) = cancel m in
        (
          m',
          elim snap [
            | none ↦ no_active_scan
            | some a ↦ cancelled_scan a.id (rfc3339 (unix a.started_at)) (rfc3339 (unix now))
          ],
        )

    -- List: the rows in the order of `newest`; `ψ` and `χ` say whether the queries of the page and of the
    -- total are refused, the latter of which leaves 0.
    unfoldable pub list_scans :
        (String → Option ℤ)
        → (List ScanRow → List ScanRow)
        → Bool
        → Bool
        → List ScanRow
        → String
        → String
        → Reply Float
    list_scans atoi newest ψ χ rows limit offset =
        let (n, skip) = parse_pagination atoi limit offset in
        if ψ
        then internal_error
        else page (items_of (take n (drop skip (newest rows)))) (if χ then 0 else length rows) n
            skip

    unfoldable pub telemetry_row : ScanRow → Telemetry Float
    telemetry_row r =
        let duration = or_zero r.duration_seconds in
        let timing = add64 (add64 r.disk_read_ms r.db_read_ms) r.db_write_ms in
        let candidates = add64 r.cache_hits r.cache_misses in
        let bytes = of_int r.progress_bytes_read in
        record {
          scan_id = r.id;
          started_at = rfc3339 r.started_at;
          finished_at = time_or r.finished_at;
          status = r.status;
          triggered_by = r.triggered_by;
          duration_seconds = duration;
          files_discovered = r.files_discovered;
          files_hashed = r.files_hashed;
          cache_hits = r.cache_hits;
          cache_misses = r.cache_misses;
          duplicate_groups = r.duplicate_groups;
          duplicate_files = r.duplicate_files;
          reclaimable_bytes = r.reclaimable_bytes;
          errors = r.errors;
          bytes_read_mb = divided (divided bytes (of_int 1024)) (of_int 1024);
          disk_read_ms = r.disk_read_ms;
          db_read_ms = r.db_read_ms;
          db_write_ms = r.db_write_ms;
          total_timing_ms = timing;
          files_per_sec =
              if is_positive duration
              then divided (of_int r.files_discovered) (of_int duration)
              else of_int 0;
          candidate_pct = percent candidates r.files_discovered;
          cache_hit_pct = percent r.cache_hits candidates;
          hash_throughput_mbps =
              if is_positive r.disk_read_ms
              then divided
                  (divided (divided bytes (divided (of_int r.disk_read_ms) (of_int 1000)))
                    (of_int 1024))
                  (of_int 1024)
              else of_int 0;
          disk_pct = percent r.disk_read_ms timing;
          db_write_pct = percent r.db_write_ms timing;
          db_read_pct = percent r.db_read_ms timing;
        }

    module _ (parse_int : String → Option ℕ) (refused : Bool) (rows : List ScanRow) where
      -- Get: `by_time` orders the errors, and `unlisted` says whether their query is refused.
      unfoldable pub get_scan :
          (List ScanError → List ScanError) → Bool → List ScanError → String → Reply Float
      get_scan by_time unlisted errors id = elim (parse_int id) [
        | none ↦ invalid_id
        | some k ↦ if refused then internal_error else elim (find_row k rows) [
          | none ↦ not_found
          | some r ↦ detail (item_of r) (
              if unlisted
              then []
              else error_items (by_time (keep (λ e. nat_beq e.scan_id k) errors)))
        ]
      ]

      -- Telemetry.
      unfoldable pub telemetry : String → Reply Float
      telemetry id = elim (parse_int id) [
        | none ↦ invalid_id
        | some k ↦ if refused then internal_error else elim (find_row k rows) [
          | none ↦ not_found
          | some r ↦ telemetry_of (telemetry_row r)
        ]
      ]
