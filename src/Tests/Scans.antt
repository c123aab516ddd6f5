-- ===== src/Tests/Scans.antt =====
-- The scans handler (internal/api/handlers/scans.go) and the progress reporter (internal/scan/scan.go) on
-- a history of two scans. A division over zero is 7 in one of the two divisions.
use ditto.Prelude.{
  ℕ, ◌*◌, ◌/◌, ◌≡◌, refl, List, [], ◌∷◌, Option, none, some, false, String, ℤ, if◌then◌else◌,
  nat_beq, arith,
}
use ditto.Scan.Types.{unix}
use ditto.Scan.Records.{
  ScanRow, running, completed, manual, schedule, new_row, ExecFaults, insert_scan_record,
}
use ditto.Scan.Manager.{new_manager, start}
use ditto.Scan.Handlers.{
  Floats, ScanItem, ScanError, ErrorItem, accepted, cancelled_scan, page, detail, create,
  cancel_current, get_scan, list_scans, item_of, items_of,
}
use ditto.Scan.Answers.{create-get_scan}
use ditto.Trash.Handlers.{parse_pagination}
use ditto.Tests.Manager.{history, config}

-- Quotients of whole numbers, in thousandths.
abbrev pub floats : Floats
floats = record { Float = ℕ; of_int = λ n. n; times = λ a b. a * b; divided = λ a b. a * 1000 / b }

abbrev sevens : ℕ → ℕ → ℕ
sevens a b = if nat_beq b 0 then 7 else a * 1000 / b

abbrev pub date : ℕ → String
date t = "2026-01-02T00:00:00Z"

abbrev pub row : ScanRow
row = record (new_row 2 9_000_000_000 manual) {
  status = completed;
  files_discovered = 10;
  cache_hits = 3;
  disk_read_ms = 4;
  progress_bytes_read = 4096;
}

abbrev rows : List ScanRow
rows = new_row 1 3_000_000_000 schedule ∷ row ∷ []

-- Every number is read as 2.
abbrev pub parse_two : String → Option ℕ
parse_two id = some 2

abbrev no_number : String → Option ℤ
no_number s = none

abbrev pub as_is : List ScanError → List ScanError
as_is es = es

abbrev swapped : List ScanRow → List ScanRow
swapped (r ∷ s ∷ rs) = s ∷ r ∷ rs
swapped rs = rs

two_listed :
    list_scans floats date no_number swapped false false rows "" ""
    ≡ page (items_of floats date (swapped rows)) 2 50 0
unfolding list_scans parse_pagination
two_listed = refl

id_two : parse_two "2" ≡ some (item_of floats date row).id
unfolding item_of
id_two = refl

accepted_two :
    (create floats date (new_manager history [] [] config) false 9_000_000_000).1
    ≡ accepted 2 (date 9) manual
unfolding create start insert_scan_record
accepted_two = refl

create-get_scan_example :
    ((it : ScanItem ℕ) × (es : List ErrorItem) × (get_scan floats date parse_two false
          (create floats date (new_manager history [] [] config) false 9_000_000_000).0.history.rows
          as_is
          false
          []
          "2"
        ≡ detail it es)
      × (it.id ≡ 2)
      × (it.started_at ≡ date 9)
      × (it.status ≡ running)
      × (it.triggered_by ≡ manual))
    × ((cancel_current floats date
          (create floats date (new_manager history [] [] config) false 9_000_000_000).0
          10_000_000_000).1
        ≡ cancelled_scan 2 (date 9) (date (unix 10_000_000_000)))
create-get_scan_example =
    create-get_scan floats date (new_manager history [] [] config) false 9_000_000_000 2
      10_000_000_000 (date 9) manual parse_two as_is false [] "2" (λ j r h. ground (arith))
      accepted_two refl

abbrev nothing_refused : ExecFaults
nothing_refused = record {
  count_groups = false;
  finalise = false;
  count_deletions = false;
  snapshot = false;
}
