-- ===== src/Tests/Shown.antt =====
-- The page of a group, and the first page after a purge (internal/api/pages.go).
use ditto.Prelude.{◌+◌, ◌%◌, ◌≡◌, refl, inl, List, [], ◌∷◌, false, arith}
use ditto.Tables.{DuplicateFile}
use ditto.Scan.Types.{word}
use ditto.Scan.Records.{ScanRow, Snapshot}
use ditto.Trash.Manager.{ok, purge_all, purge_items, purge_item}
use ditto.Pages.Groups.{GroupRow, QueryFaults, bare_row, file_rows, with_files, groups_page}
use ditto.Pages.Detail.{shown, group_detail_page, group_detail_page-groups_page}
use ditto.Pages.Dashboard.{DashboardFaults, dashboard_page}
use ditto.Pages.Reclaimed.{dashboard_page-purge_all}
use ditto.Tests.Data.{db_faults}
use ditto.Tests.Codec.{codec}
use ditto.Tests.Listing.{
  groups, group, row, as_stored, perm_refl, same_files, date, all_groups, parse_two,
}
use ditto.Tests.Trash.{copying, full}

abbrev none_refused : QueryFaults
none_refused = record { totals = false; count = false; groups = false; files = false }

abbrev files : List DuplicateFile
files = row 7 ∷ record (row 8) { group_id = 1 } ∷ row 9 ∷ []

abbrev shown_row : GroupRow
shown_row =
    with_files date (λ p. p) (bare_row date (λ p. p) (group 2))
      (file_rows date (λ p. p) (row 7 ∷ row 9 ∷ []))

group_detail_page-groups_page_example :
    group_detail_page date (λ p. p) parse_two same_files false false (groups 2) files "2"
    ≡ shown shown_row
unfolding groups_page
group_detail_page-groups_page_example =
    group_detail_page-groups_page date (λ p. p) codec.atoi as_stored same_files same_files
      none_refused (groups 2) files all_groups shown_row parse_two "2" (refl, (refl, tt))
      (λ o gs. perm_refl gs) (λ k fs. refl) refl refl (inl refl) refl

abbrev same_scans : List ScanRow → List ScanRow
same_scans rs = rs

abbrev same_snapshots : List Snapshot → List Snapshot
same_snapshots ss = ss

abbrev all_answered : DashboardFaults
all_answered = record {
  active = false;
  all_time = false;
  last_30d = false;
  scans = false;
  trend = false;
}

purged : (purge_all copying db_faults 17 5 full).1 ≡ ok (2, 4)
unfolding purge_all purge_items purge_item
purged = refl

dashboard_page-purge_all_example :
    ((dashboard_page date date same_scans same_snapshots all_answered 20
          (groups 2)
          (purge_all copying db_faults 17 5 full).0.deletion_log
          []
          []).deleted_all_time
        % word
      ≡ ((dashboard_page date date same_scans same_snapshots all_answered 17
            (groups 2)
            full.deletion_log
            []
            []).deleted_all_time
          + 2)
        % word)
    × ((dashboard_page date date same_scans same_snapshots all_answered 20
            (groups 2)
            (purge_all copying db_faults 17 5 full).0.deletion_log
            []
            []).reclaimed_all_time
          % word
        ≡ ((dashboard_page date date same_scans same_snapshots all_answered 17
              (groups 2)
              full.deletion_log
              []
              []).reclaimed_all_time
            + 4)
          % word)
unfolding purge_all purge_items purge_item
dashboard_page-purge_all_example =
    dashboard_page-purge_all date date same_scans same_snapshots all_answered 17 5 20 (groups 2) []
      [] copying db_faults full 2 4 refl refl (λ j. refl) (omega arith) purged
