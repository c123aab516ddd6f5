-- ===== src/Settings/Defs.antt =====
-- Config, applyDefaults, Load and MergeDBSettings (internal/config/config.go). YAML, JSON and strconv are
-- outside the repository: they are the fields of `Codec`.
use ditto.Prelude.{
  ℕ, ◌≡◌, List, [], Option, none, some, Bool, false, String, ℤ, pos, is_zero, if◌then◌else◌, ◌==◌,
  string_key,
}

pub record ScanWorkers : Type 0 where
  pub walkers : ℤ
  pub cache_checkers : ℤ
  pub partial_hashers : ℤ
  pub full_hashers : ℤ

pub record Config : Type 0 where
  pub scan_paths : List String
  pub exclude_paths : List String
  pub schedule : String
  pub scan_paused : Bool
  pub trash_dir : String
  pub trash_retention_days : ℤ
  pub db_path : String
  pub http_addr : String
  pub scan_workers : ScanWorkers
  pub log_level : String

abbrev pub or_text : String → String → String
or_text s d = if s == "" then d else s

abbrev pub or_number : ℤ → ℕ → ℤ
or_number n d = if is_zero n then pos d else n

unfoldable pub apply_defaults : Config → Config
apply_defaults c =
    let w = c.scan_workers in
    record c {
      schedule = or_text c.schedule "0 2 * * 0";
      trash_dir = or_text c.trash_dir "/data/trash";
      trash_retention_days = or_number c.trash_retention_days 30;
      db_path = or_text c.db_path "/data/ditto.db";
      http_addr = or_text c.http_addr ":8080";
      scan_workers = record {
        walkers = or_number w.walkers 4;
        cache_checkers = or_number w.cache_checkers 4;
        partial_hashers = or_number w.partial_hashers 4;
        full_hashers = or_number w.full_hashers 2;
      };
      log_level = or_text c.log_level "info";
    }

-- `var cfg Config`.
abbrev pub zero_config : Config
zero_config = record {
  scan_paths = [];
  exclude_paths = [];
  schedule = "";
  scan_paused = false;
  trash_dir = "";
  trash_retention_days = pos 0;
  db_path = "";
  http_addr = "";
  scan_workers = record {
    walkers = pos 0;
    cache_checkers = pos 0;
    partial_hashers = pos 0;
    full_hashers = pos 0;
  };
  log_level = "";
}

-- What `os.Open` finds at the path.
pub data ConfigFile : Type 0 where
  absent unreadable : ConfigFile
  text : String → ConfigFile

-- Load; `decode` is the YAML decoder, which refuses unknown fields. `none` is an error.
unfoldable pub load : (String → Option Config) → ConfigFile → Option Config
load decode absent = some (apply_defaults zero_config)
load decode unreadable = none
load decode (text t) = elim (decode t) [ none ↦ none | some c ↦ some (apply_defaults c) ]

-- json.Marshal and Unmarshal of a list of texts, strconv's FormatBool, ParseBool, Itoa and Atoi. What is
-- printed is read back, and is not empty.
pub record Codec : Type 0 where
  pub marshal : List String → String
  pub unmarshal : String → Option (List String)
  pub format_bool : Bool → String
  pub parse_bool : String → Option Bool
  pub itoa : ℤ → String
  pub atoi : String → Option ℤ
  pub unmarshal-marshal : (ps : List String) → unmarshal (marshal ps) ≡ some ps
  pub parse_bool-format_bool : (b : Bool) → parse_bool (format_bool b) ≡ some b
  pub atoi-itoa : (n : ℤ) → atoi (itoa n) ≡ some n
  pub marshal-ne-empty : (ps : List String) → (marshal ps == "") ≡ false
  pub format_bool-ne-empty : (b : Bool) → (format_bool b == "") ≡ false
  pub itoa-ne-empty : (n : ℤ) → (itoa n == "") ≡ false

-- The table settings, a map from its primary key.
abbrev pub Table : Type 0
Table = String → Option String

abbrev pub or_else : {A : Type 0} → A → Option A → A
or_else a none = a
or_else a (some b) = b

-- A setting over the value `old`: a missing key, an empty text and a text that cannot be read leave it.
abbrev pub overlay : {A : Type 0} → (String → Option A) → Option String → A → A
overlay parse none old = old
overlay parse (some v) old = if v == "" then old else or_else old (parse v)

unfoldable pub merge_db_settings : Codec → Config → Table → Config
merge_db_settings k c t =
    let w = c.scan_workers in
    record c {
      scan_paths = overlay k.unmarshal (t "scan_paths") c.scan_paths;
      exclude_paths = overlay k.unmarshal (t "exclude_paths") c.exclude_paths;
      schedule = overlay (λ v. some v) (t "schedule") c.schedule;
      scan_paused = overlay k.parse_bool (t "scan_paused") c.scan_paused;
      trash_retention_days = overlay k.atoi (t "trash_retention_days") c.trash_retention_days;
      scan_workers = record {
        walkers = overlay k.atoi (t "walkers") w.walkers;
        cache_checkers = overlay k.atoi (t "cache_checkers") w.cache_checkers;
        partial_hashers = overlay k.atoi (t "partial_hashers") w.partial_hashers;
        full_hashers = overlay k.atoi (t "full_hashers") w.full_hashers;
      };
    }
