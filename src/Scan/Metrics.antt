-- ===== src/Scan/Metrics.antt =====
-- The quotients of Telemetry and of List (internal/api/handlers/scans.go).
use ditto.Prelude.{ℕ, ◌≡◌, refl, true, String, if◌then◌else◌, ap, ◌∙◌, Bool-cases, inl, inr}
use ditto.Scan.Types.{add64}
use ditto.Scan.Records.{ScanRow}
use ditto.Scan.Handlers.{Floats, is_positive, percent, telemetry_row, or_zero}

module _ (F : Floats) (NonZero : F.Float → Type 0) (divided' : F.Float → F.Float → F.Float)
    (whole : (n : ℕ) → is_positive n ≡ true → NonZero (F.of_int n))
    (seconds : (n : ℕ) → is_positive n ≡ true → NonZero (F.divided (F.of_int n) (F.of_int 1000)))
    (same : (a b : F.Float) → NonZero b → divided' a b ≡ F.divided a b) where
  -- The numbers with the other division.
  abbrev other : Floats
  other = record F { divided = divided' }

  guarded :
      (n : ℕ) (a : F.Float)
      → (if is_positive n then divided' a (F.of_int n) else F.of_int 0)
        ≡ (if is_positive n then F.divided a (F.of_int n) else F.of_int 0)
  guarded n a = elim (Bool-cases (is_positive n)) [
    | inl some_whole ↦ rw some_whole (same a (F.of_int n) (whole n some_whole))
    | inr none_there ↦ rw none_there refl
  ]

  percent-divided : (part total : ℕ) → percent other part total ≡ percent F part total
  unfolding percent
  percent-divided part total = guarded total (F.times (F.of_int part) (F.of_int 100))

  throughput-divided :
      (bytes ms : ℕ)
      → (if is_positive ms
          then divided'
              (divided'
                (divided' (F.of_int bytes) (divided' (F.of_int ms) (F.of_int 1000)))
                (F.of_int 1024))
              (F.of_int 1024)
          else F.of_int 0)
        ≡ (if is_positive ms
            then F.divided
                (F.divided
                  (F.divided (F.of_int bytes) (F.divided (F.of_int ms) (F.of_int 1000)))
                  (F.of_int 1024))
                (F.of_int 1024)
            else F.of_int 0)
  throughput-divided bytes ms = elim (Bool-cases (is_positive ms)) [
    | inr none_there ↦ rw none_there refl
    | inl some_ms ↦
        let thousandth = same (F.of_int ms) (F.of_int 1000) (whole 1000 refl) in
        let over =
          same (F.of_int bytes) (F.divided (F.of_int ms) (F.of_int 1000)) (seconds ms some_ms) in
        let kilo = (λ (a : F.Float). same a (F.of_int 1024) (whole 1024 refl)) in
        rw some_ms (rw (thousandth, over) (kilo _ ∙ ap (λ a. F.divided a (F.of_int 1024)) (kilo _)))
  ]

  -- Where division is only known at divisors that are not zero, as the number of a positive integer is not,
  -- nor a thousandth of it, the answer of Telemetry is determined: whatever the row holds, no quotient is
  -- taken over zero.
  pub telemetry_row-divided :
      (rfc3339 : ℕ → String) (r : ScanRow)
      → telemetry_row other rfc3339 r ≡ telemetry_row F rfc3339 r
  unfolding telemetry_row
  telemetry_row-divided rfc3339 r =
      let kilo = (λ (a : F.Float). same a (F.of_int 1024) (whole 1024 refl)) in
      let bytes = F.of_int r.progress_bytes_read in
      let megabytes : divided' (divided' bytes (F.of_int 1024)) (F.of_int 1024)
          ≡ F.divided (F.divided bytes (F.of_int 1024)) (F.of_int 1024) =
        kilo _ ∙ ap (λ a. F.divided a (F.of_int 1024)) (kilo bytes) in
      let timing = add64 (add64 r.disk_read_ms r.db_read_ms) r.db_write_ms in
      let candidates = add64 r.cache_hits r.cache_misses in
      let speed = guarded (or_zero r.duration_seconds) (F.of_int r.files_discovered) in
      λ i. record (telemetry_row F rfc3339 r) {
        bytes_read_mb = megabytes i;
        files_per_sec = speed i;
        candidate_pct = percent-divided candidates r.files_discovered i;
        cache_hit_pct = percent-divided r.cache_hits candidates i;
        hash_throughput_mbps = throughput-divided r.progress_bytes_read r.disk_read_ms i;
        disk_pct = percent-divided r.disk_read_ms timing i;
        db_write_pct = percent-divided r.db_write_ms timing i;
        db_read_pct = percent-divided r.db_read_ms timing i;
      }
