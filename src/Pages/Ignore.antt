-- ===== src/Pages/Ignore.antt =====
-- The actions of the pages that ignore and reset a group, restore and purge the trash, and start and cancel
-- a scan (internal/api/pages.go). Sorting, the JSON text of a list of paths and strconv's numbers are
-- parameters.
use ditto.Prelude.{
  ℕ, List, Option, none, some, Bool, String, if◌then◌else◌, ltb, length, ◌==◌, string_key,
}
use ditto.Disk.{Faults}
use ditto.Tables.{
  DuplicateGroup, GroupStatus, unresolved, ignored, watching, find_group, update_group, files_of,
}
use ditto.Trash.Manager.{World, DbFaults, Result, ok, err, Names, restore, purge_all}
use ditto.Scan.Records.{manual}
use ditto.Scan.Manager.{
  Manager, StartResult, ActiveScan, started, already_running, record_failed, start, cancel,
}
use ditto.Groups.Ignore.{
  Kind, hash, path_pair, dir, Desk, IgnoreFaults, Body, of_kind, other_type, insert_entry, paths_of,
}

-- Where the browser is sent, and why. A query of the paths that fails leaves nil rows, whose first use
-- panics, which the server's Recoverer answers.
pub data PageAnswer : Type 0 where
  page_missing no_group too_few_files no_path wrong_type panicked group_updated : PageAnswer
  reset_failed group_reset restore_failed file_restored purge_failed : PageAnswer
  trash_purged : ℕ → ℕ → PageAnswer
  no_scanner scan_running scan_failed scan_started no_scan scan_cancelled : PageAnswer

-- The value that is listed, the hash that it expects, and the new status of the group.
pub data PageListing : Type 0 where
  turn_away : PageAnswer → PageListing
  admit : String → Option String → GroupStatus → PageListing

module _ (sort : List String → List String) (json : List String → String) where
  unfoldable pub page_listing : IgnoreFaults → Desk → DuplicateGroup → Kind → String → PageListing
  page_listing χ s g hash path = admit g.content_hash none ignored
  page_listing χ s g path_pair path =
      let paths = paths_of (files_of g.id s.files) in
      if χ.path_query
      then turn_away panicked
      else if ltb (length paths) 2
      then turn_away too_few_files
      else admit (json (sort paths)) (some g.content_hash) watching
  page_listing χ s g dir path = if path == "" then turn_away no_path else admit path none ignored

  -- The two statements at the end of uiGroupIgnore, whose errors are not read.
  unfoldable pub set_status :
      IgnoreFaults → ℕ → Desk → ℕ → Kind → String → Option String → GroupStatus → Desk
  set_status χ now s group kind value expected status =
      let s' = if χ.insert then s else insert_entry s now kind value expected in
      let change = λ (g : DuplicateGroup). record g {
        status = status;
        ignored_at = some now;
        updated_at = now;
      } in
      if χ.update_status then s' else record s' { groups = update_group group change s'.groups }

  unfoldable pub ui_group_ignore :
      (String → Option ℕ) → IgnoreFaults → ℕ → Desk → String → Body → Desk × PageAnswer
  ui_group_ignore parse_int χ now s id body = elim (parse_int id) [
    | none ↦ (s, page_missing)
    | some group ↦ if χ.group_query then (s, no_group) else elim (find_group group s.groups) [
      | none ↦ (s, no_group)
      | some g ↦ elim body [
        | other_type ↦ (s, wrong_type)
        | of_kind kind path ↦ elim (page_listing χ s g kind path) [
          | turn_away a ↦ (s, a)
          | admit value expected status ↦
              (set_status χ now s group kind value expected status, group_updated)
        ]
      ]
    ]
  ]

module _ (parse_int : String → Option ℕ) where
  -- uiGroupReset; `refused` says whether the database refuses the update.
  unfoldable pub ui_group_reset : Bool → ℕ → Desk → String → Desk × PageAnswer
  ui_group_reset refused now s id =
      let change = λ (g : DuplicateGroup). record g {
        status = unresolved;
        ignored_at = none;
        updated_at = now;
      } in
      elim (parse_int id) [
        | none ↦ (s, page_missing)
        | some group ↦
            if refused
            then (s, reset_failed)
            else (record s { groups = update_group group change s.groups }, group_reset)
      ]

  module _ (φ : Faults) (ψ : DbFaults) (now : ℕ) (n : Names) where
    abbrev pub restored_answer : Result (Unit {0}) → PageAnswer
    restored_answer (ok tt) = file_restored
    restored_answer (err e) = restore_failed

    unfoldable pub ui_trash_restore : World → String → World × PageAnswer
    ui_trash_restore w id = elim (parse_int id) [
      | none ↦ (w, page_missing)
      | some k ↦ let (w', done) = restore φ ψ now n w k in (w', restored_answer done)
    ]

    abbrev pub purged_answer : Result (ℕ × ℕ) → PageAnswer
    purged_answer (ok (count, bytes)) = trash_purged count bytes
    purged_answer (err e) = purge_failed

    unfoldable pub ui_trash_purge : ℕ → World → World × PageAnswer
    ui_trash_purge live w = let (w', done) = purge_all φ ψ now live w in (w', purged_answer done)

abbrev pub start_answer : StartResult → PageAnswer
start_answer (started a) = scan_started
start_answer already_running = scan_running
start_answer record_failed = scan_failed

-- uiScanStart: a manual scan; there may be no scan manager.
unfoldable pub ui_scan_start : Option Manager → Bool → ℕ → Option Manager × PageAnswer
ui_scan_start none refused now = (none, no_scanner)
ui_scan_start (some m) refused now =
    let (m', result) = start m refused now manual in (some m', start_answer result)

abbrev pub cancel_answer : Option ActiveScan → PageAnswer
cancel_answer none = no_scan
cancel_answer (some a) = scan_cancelled

-- uiScanCancel.
unfoldable pub ui_scan_cancel : Option Manager → Option Manager × PageAnswer
ui_scan_cancel none = (none, no_scanner)
ui_scan_cancel (some m) = let (m', snap) = cancel m in (some m', cancel_answer snap)
