-- ===== src/Scan/Config.antt =====
-- Config and DefaultConfig of the scan pipeline (internal/scan/scan.go).
use ditto.Prelude.{ℕ, Bool, false, ℤ, pos}

-- `read_db` says whether there is a separate pool for reads.
pub record ScanConfig : Type 0 where
  pub walkers : ℤ
  pub cache_checkers : ℤ
  pub partial_hashers : ℤ
  pub full_hashers : ℤ
  pub batch_size : ℕ
  pub read_db : Bool

unfoldable pub default_config : ScanConfig
default_config = record {
  walkers = pos 4;
  cache_checkers = pos 4;
  partial_hashers = pos 4;
  full_hashers = pos 2;
  batch_size = 1000;
  read_db = false;
}
