-- ===== src/Disk.antt =====
-- The file system, as far as the program uses it. It stands outside the repository, so its faults
-- are a parameter; an operation that is not refused does what the Go documentation says of it.
use ditto.Prelude.{
  ℕ, List, Option, none, some, Bool, true, false, String, if◌then◌else◌, update, string_key, length,
}

pub record File : Type 0 where
  pub content : List ℕ
  pub mtime : ℕ

-- What is at each path. Directories are not modelled but by what `os.MkdirAll` may refuse.
abbrev pub Disk : Type 0
Disk = String → Option File

pub data Outcome : Type 0 where
  done crosses_devices refused : Outcome

-- What the system refuses, by operation and path.
pub record Faults : Type 0 where
  pub stat : String → Bool
  pub mkdir : String → Bool
  pub rename : String → String → Outcome
  pub open_file : String → Bool
  pub create : String → Bool
  -- the number of bytes after which a copy stops with an error
  pub copy : String → String → Option ℕ
  pub close : String → Bool
  pub remove : String → Bool

abbrev pub no_faults : Faults
no_faults = record {
  stat = λ _. false;
  mkdir = λ _. false;
  rename = λ _ _. Outcome.done;
  open_file = λ _. false;
  create = λ _. false;
  copy = λ _ _. none;
  close = λ _. false;
  remove = λ _. false;
}

abbrev pub size : File → ℕ
size f = length f.content

-- `os.Remove`, if it is not refused.
abbrev pub erase : Disk → String → Disk
erase d p = update d p none

abbrev pub exists : Option File → Bool
exists none = false
exists (some _) = true

-- `os.Stat`: an error that is "not exist", another error, or the file's data.
pub data Stat : Type 0 where
  missing denied : Stat
  found : File → Stat

abbrev pub found_or_missing : Option File → Stat
found_or_missing none = missing
found_or_missing (some f) = found f

unfoldable pub stat : Faults → Disk → String → Stat
stat φ d p = if φ.stat p then denied else found_or_missing (d p)
