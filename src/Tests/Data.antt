-- ===== src/Tests/Data.antt =====
-- The files, times and names that the tests share.
use ditto.Prelude.{
  pos, true, ℕ, ◌∷◌, [], List, none, some, String, false, if◌then◌else◌, update, string_key,
  list_beq, ◌==◌, refl,
}
use Prim.Native.String.{◌++◌}
use ditto.Disk.{File, Disk}
use ditto.Scan.Types.{FileInfo}
use ditto.Scan.Cache.{Turn}
use ditto.Scan.Hasher.{ReadFaults}
use ditto.Tests.Queue.{sorted_list}
use ditto.Scan.Config.{ScanConfig}
use ditto.Scan.Pipeline.Wiring.{Mixing, Schedule}
use ditto.Trash.Manager.{Names, DbFaults}

-- A digest that tells the contents of the tests apart.
abbrev pub digest : List ℕ → String
digest [] = "empty"
digest (b ∷ bs) = if list_beq (b ∷ bs) (1 ∷ 2 ∷ []) then "one_two" else "other"

abbrev pub readable : ReadFaults
readable = record { open_file = λ _. false; read = λ _. false }

abbrev pub path_a : String
path_a = "/photos/a.jpg"

abbrev pub path_b : String
path_b = "/photos/b.jpg"

abbrev pub path_c : String
path_c = "/photos/c.jpg"

abbrev pub one_two : File
one_two = record { content = 1 ∷ 2 ∷ []; mtime = 5_000_000_000 }

abbrev pub one_three : File
one_three = record { content = 1 ∷ 3 ∷ []; mtime = 5_000_000_000 }

-- Two copies, and another file of their size.
abbrev pub disk : Disk
disk =
    update (update (update (λ _. none) path_a (some one_two)) path_b (some one_two)) path_c
      (some one_three)

abbrev pub info : String → FileInfo
info p = record { path = p; size = 2; mtime = 5_000_000_000 }

abbrev pub walked : List FileInfo
walked = info path_a ∷ info path_c ∷ info path_b ∷ []

abbrev pub turns : ℕ → Turn
turns i = record { ready = 1; fails = false; took = 3 }

abbrev pub in_order : {A : Type 0} → Mixing A
in_order = record { mix = λ xs. xs; same = λ p xs. refl }

abbrev pub staff : ScanConfig
staff = record {
  walkers = pos 2;
  cache_checkers = pos 1;
  partial_hashers = pos 2;
  full_hashers = pos 1;
  batch_size = 1000;
  read_db = false;
}

abbrev pub schedule : Schedule
schedule = record {
  cfg = staff;
  candidates = in_order;
  misses = in_order;
  partial = in_order;
  heap = sorted_list;
  accepts = λ i. true;
  merged = in_order;
}

abbrev pub names : Names
names = record {
  join = λ a b. a ++ "/" ++ b;
  base = λ p. if p == path_a then "a.jpg" else "x.jpg";
  dir = λ p. "/dir";
  date = λ t. "2026-01-02";
  stamped = λ t b. "17_" ++ b;
}

abbrev pub db_faults : DbFaults
db_faults = record { query = false; insert = false; update_item = λ _. false; log = λ _. false }
