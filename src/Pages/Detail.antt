-- ===== src/Pages/Detail.antt =====
-- The page of one group (internal/api/pages.go, groupDetailPage) against the page of the groups.
use ditto.Prelude.{
  ℕ, ◌≡◌, refl, List, [], ◌∷◌, Option, none, some, Bool, true, false, String, ℤ, at_least,
  if◌then◌else◌, nat_beq, nat_beq_iff, keep, take, drop, mem, Member, Member-perm, Member-take,
  Member-drop, Member-keep, AllDifferent, arith, ap, ◌∙◌, sym, inl, inr, subst, keep-keep,
}
use mathlib.Core.List.{Permᴰ}
use ditto.Tables.{DuplicateGroup, DuplicateFile, find_group, files_of, ids}
use ditto.Trash.Handlers.{parameter}
use ditto.Groups.Query.{OrderBy, sort_order, order_or, where_clause}
use ditto.Groups.Shown.{find_group_lem, mem-ids}
use ditto.Pages.Paging.{ids-bare_rows, id-with_files}
use ditto.Pages.Groups.{
  GroupRow, PageQuery, QueryFaults, min_preset, page_limit, group_ids, bare_row, bare_rows,
  file_rows, with_files, add_files, groups_page,
}

-- What groupDetailPage shows.
pub data DetailPage : Type 0 where
  not_a_number no_such_group database_error : DetailPage
  shown : GroupRow → DetailPage

module _ (date_time : ℕ → String) (base : String → String) where
  -- groupDetailPage: `χ` and `ψ` say whether the query of the group and that of its files are refused.
  unfoldable pub group_detail_page :
      (String → Option ℕ)
      → (List DuplicateFile → List DuplicateFile)
      → Bool
      → Bool
      → List DuplicateGroup
      → List DuplicateFile
      → String
      → DetailPage
  group_detail_page parse_int by_path χ ψ groups files id = elim (parse_int id) [
    | none ↦ not_a_number
    | some k ↦ if χ then database_error else elim (find_group k groups) [
      | none ↦ no_such_group
      | some g ↦
          let rows = if ψ then [] else file_rows date_time base (by_path (files_of k files)) in
          shown (with_files date_time base (bare_row date_time base g) rows)
    ]
  ]

  group_detail_page-found :
      (parse_int : String → Option ℕ) (by_path : List DuplicateFile → List DuplicateFile)
      (groups : List DuplicateGroup) (files : List DuplicateFile) (id : String) (k : ℕ)
      (g : DuplicateGroup)
      → parse_int id ≡ some k
      → find_group k groups ≡ some g
      → group_detail_page parse_int by_path false false groups files id
        ≡ shown (
            with_files date_time base
              (bare_row date_time base g)
              (file_rows date_time base (by_path (files_of k files))))
  unfolding group_detail_page
  group_detail_page-found parse_int by_path groups files id k g parsed found = ground arith

  -- A row of the page is that of a group of the table, with the files that it has among those listed.
  add_files-row :
      (listed : List DuplicateFile) (row : GroupRow) (gs : List DuplicateGroup)
      → Member row (add_files date_time base listed (bare_rows date_time base gs))
      → (g : DuplicateGroup) × Member g gs
        × (row
            ≡ with_files date_time base
                (bare_row date_time base g)
                (file_rows date_time base (keep (λ f. nat_beq f.group_id g.id) listed)))
  add_files-row listed row [] m = absurd m
  add_files-row listed row (g ∷ gs) (inl here) = (g, inl refl, here)
  add_files-row listed row (g ∷ gs) (inr m) =
      let (g', there, e) = add_files-row listed row gs m in (g', inr there, e)

  -- The page at a row's id shows the row, where the row is among those of groups of the table.
  detail_of_row :
      (by_group by_path : List DuplicateFile → List DuplicateFile) (groups gs : List DuplicateGroup)
      (files : List DuplicateFile) (row : GroupRow) (parse_int : String → Option ℕ) (id : String)
      → AllDifferent (ids groups)
      → ((k : ℕ) (fs : List DuplicateFile) → files_of k (by_group fs) ≡ by_path (files_of k fs))
      → ((g : DuplicateGroup) → Member g gs → Member g groups)
      → Member row (
          add_files date_time base
            (by_group (keep (λ f. mem f.group_id (group_ids (bare_rows date_time base gs))) files))
            (bare_rows date_time base gs))
      → parse_int id ≡ some row.id
      → group_detail_page parse_int by_path false false groups files id ≡ shown row
  detail_of_row by_group by_path groups gs files row parse_int id differ sorted in_table member
        parsed =
      let rows = bare_rows date_time base gs in
      let asked = λ (f : DuplicateFile). mem f.group_id (group_ids rows) in
      let listed = by_group (keep asked files) in
      let (g, there, e) = add_files-row listed row gs member in
      let bare = bare_row date_time base g in
      let on_page : mem g.id (group_ids rows) ≡ true =
        ap (λ l. mem g.id l) (ids-bare_rows date_time base gs) ∙ mem-ids g gs there in
      let same_files : files_of g.id listed ≡ by_path (files_of g.id files) =
        sorted g.id (keep asked files)
        ∙ ap by_path (
            keep-keep (λ (f : DuplicateFile). nat_beq f.group_id g.id) asked
              (λ f h.
                ap (λ j. mem j (group_ids rows)) ((nat_beq_iff f.group_id g.id).0 h) ∙ on_page)
              files) in
      let same_id : row.id ≡ g.id =
        ap (λ (y : GroupRow). y.id) e
        ∙ id-with_files date_time base bare (file_rows date_time base (files_of g.id listed)) in
      let at : find_group row.id groups ≡ some g =
        ap (λ j. find_group j groups) same_id ∙ find_group_lem g groups differ (in_table g there) in
      group_detail_page-found parse_int by_path groups files id row.id g parsed at
      ∙ ap
          (λ k. shown (
            with_files date_time base bare (file_rows date_time base (by_path (files_of k files)))))
          same_id
      ∙ ap (λ l. shown (with_files date_time base bare (file_rows date_time base l)))
          (sym same_files)
      ∙ ap shown (sym e)

  -- If the ids of the groups differ, the queries are not refused, and the files of each group come in the
  -- order of the query of that group's files, then for a row of the page of the groups, the page at its id
  -- shows that row, its files included.
  pub group_detail_page-groups_page :
      (atoi : String → Option ℤ) (ordered : OrderBy → List DuplicateGroup → List DuplicateGroup)
      (by_group by_path : List DuplicateFile → List DuplicateFile) (χ : QueryFaults)
      (groups : List DuplicateGroup) (files : List DuplicateFile) (q : PageQuery) (row : GroupRow)
      (parse_int : String → Option ℕ) (id : String)
      → AllDifferent (ids groups)
      → ((o : OrderBy) (gs : List DuplicateGroup) → Permᴰ (ordered o gs) gs)
      → ((k : ℕ) (fs : List DuplicateFile) → files_of k (by_group fs) ≡ by_path (files_of k fs))
      → χ.groups ≡ false
      → χ.files ≡ false
      → Member row (groups_page date_time base atoi ordered by_group χ groups files q).groups
      → parse_int id ≡ some row.id
      → group_detail_page parse_int by_path false false groups files id ≡ shown row
  unfolding groups_page
  group_detail_page-groups_page atoi ordered by_group by_path χ groups files q row parse_int id
        differ once sorted listed_groups listed_files member parsed =
      let offset = parameter (at_least 0) 0 (atoi q.offset) in
      let test = where_clause q.status q.file_type (min_preset q.min) in
      let sorted_groups = ordered (order_or (sort_order q.sort)) (keep test groups) in
      let found = take page_limit (drop offset sorted_groups) in
      let in_table : (g : DuplicateGroup) → Member g found → Member g groups = λ g there.
        (Member-keep g test groups (
          Member-perm g (once (order_or (sort_order q.sort)) (keep test groups))
            (Member-drop g offset sorted_groups (Member-take g page_limit _ there)))).0 in
      let rows = bare_rows date_time base found in
      let same_rows : (groups_page date_time base atoi ordered by_group χ groups files q).groups
          ≡ add_files date_time base (by_group (keep (λ f. mem f.group_id (group_ids rows)) files))
              rows =
        ground arith in
      detail_of_row by_group by_path groups found files row parse_int id differ sorted in_table
        (subst (λ l. Member row l) same_rows member) parsed
