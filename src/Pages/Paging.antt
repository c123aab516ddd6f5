-- ===== src/Pages/Paging.antt =====
-- Following the links of the groups page (internal/api/pages.go, groupsPage), and the same groups in the
-- list of the API (internal/api/handlers/groups.go, List).
use ditto.Prelude.{
  ℕ, zero, suc, ◌+◌, ◌≤◌, ◌≡◌, refl, inl, inr, List, [], ◌∷◌, ◌++◌, Option, some, true, false,
  String, ℤ, ◌==◌, string_key, pos, at_least, if◌then◌else◌, ltb, nat_beq, mem, keep, take, drop,
  length, take-append-drop, drop_add, drop_all, length-perm, arith, ap, sym, subst, ◌∙◌, Bool-cases,
  Option-cases,
}
use mathlib.Core.List.{Permᴰ}
use ditto.Tables.{DuplicateGroup, DuplicateFile, ids}
use ditto.Trash.Handlers.{parameter}
use ditto.Groups.Query.{
  OrderBy, sort_order, order_or, where_clause, uses_active, matches_status, is_active, status_text,
}
use ditto.Pages.Groups.{
  page_limit, GroupsPage, GroupRow, PageQuery, QueryFaults, group_ids, bare_rows, add_files,
  with_files, file_rows, groups_page, min_preset, shown_if, FileRow,
}

-- The query of a page's link to the next page (web/templates/groups.html): a filter that is empty is left
-- out, and read as empty. The escapes of the address are undone where it is read.
abbrev pub next_link : (ℕ → String) → GroupsPage → PageQuery
next_link print page = record {
  status = page.status_filter;
  file_type = page.type_filter;
  sort = page.sort_filter;
  min = page.min_filter;
  offset = print page.next_offset;
}

matches_status-shown :
    (s : String) (g : DuplicateGroup)
    → matches_status (if uses_active s then "" else s) g ≡ matches_status s g
matches_status-shown s g = elim (Bool-cases (uses_active s)) [
  | inl active ↦
      ap (λ b. matches_status (if b then "" else s) g) active
      ∙ sym (
          ap
            (λ b.
              if b
              then is_active g.status
              else if s == "all"
              then true
              else status_text g.status == s)
            active)
  | inr other ↦ ap (λ b. matches_status (if b then "" else s) g) other
]

min_preset-shown : (s : String) → min_preset (shown_if (min_preset s) s) ≡ min_preset s
min_preset-shown s = elim (Option-cases (min_preset s)) [
  | inl unknown ↦ ap (λ o. min_preset (shown_if o s)) unknown ∙ sym unknown
  | inr (n, known) ↦ ap (λ o. min_preset (shown_if o s)) known
]

sort_order-shown : (s : String) → sort_order (shown_if (sort_order s) s) ≡ sort_order s
sort_order-shown s = elim (Option-cases (sort_order s)) [
  | inl unknown ↦ ap (λ o. sort_order (shown_if o s)) unknown ∙ sym unknown
  | inr (n, known) ↦ ap (λ o. sort_order (shown_if o s)) known
]

keep-where :
    (s s' file_type : String) (m m' : Option ℤ) (gs : List DuplicateGroup)
    → ((g : DuplicateGroup) → matches_status s g ≡ matches_status s' g)
    → m ≡ m'
    → keep (where_clause s file_type m) gs ≡ keep (where_clause s' file_type m') gs
keep-where s s' file_type m m' [] same e = refl
keep-where s s' file_type m m' (g ∷ gs) same e =
    rw (same g, e, keep-where s s' file_type m m' gs same e) refl

ids-append : (gs hs : List DuplicateGroup) → ids (gs ++ hs) ≡ ids gs ++ ids hs
ids-append [] hs = refl
ids-append (g ∷ gs) hs = ap (◌∷◌ g.id) (ids-append gs hs)

module _ (date_time : ℕ → String) (base : String → String) where
  pub ids-bare_rows : (gs : List DuplicateGroup) → group_ids (bare_rows date_time base gs) ≡ ids gs
  ids-bare_rows [] = refl
  ids-bare_rows (g ∷ gs) = ap (◌∷◌ g.id) (ids-bare_rows gs)

  pub id-with_files :
      (g : GroupRow) (fs : List FileRow) → (with_files date_time base g fs).id ≡ g.id
  id-with_files g [] = refl
  id-with_files g (f ∷ fs) = refl

  ids-add_files :
      (files : List DuplicateFile) (gs : List GroupRow)
      → group_ids (add_files date_time base files gs) ≡ group_ids gs
  ids-add_files files [] = refl
  ids-add_files files (g ∷ gs) =
      let fs = file_rows date_time base (keep (λ f. nat_beq f.group_id g.id) files) in
      ap (λ k. k ∷ group_ids (add_files date_time base files gs)) (id-with_files g fs)
      ∙ ap (◌∷◌ g.id) (ids-add_files files gs)

  module _ (atoi : String → Option ℤ)
      (ordered : OrderBy → List DuplicateGroup → List DuplicateGroup)
      (by_path : List DuplicateFile → List DuplicateFile) (χ : QueryFaults)
      (groups : List DuplicateGroup) (files : List DuplicateFile) where
    -- All groups that the filters of a query pass.
    abbrev pub matching : PageQuery → List DuplicateGroup
    matching q = keep (where_clause q.status q.file_type (min_preset q.min)) groups

    -- The same in the order of the page.
    abbrev pub whole_list : PageQuery → List DuplicateGroup
    whole_list q = ordered (order_or (sort_order q.sort)) (matching q)

    abbrev pub offset_of : PageQuery → ℕ
    offset_of q = parameter (at_least 0) 0 (atoi q.offset)

    abbrev pub page_of : PageQuery → GroupsPage
    page_of q = groups_page date_time base atoi ordered by_path χ groups files q

    -- The ids of the groups that are seen by following the links to the next page, for some pages.
    abbrev pub follow : (ℕ → String) → ℕ → PageQuery → List ℕ
    follow print zero q = []
    follow print (suc pages) q =
        let rest = follow print pages (next_link print (page_of q)) in
        group_ids (page_of q).groups ++ (if (page_of q).has_next then rest else [])

    page_of_lem :
        (q : PageQuery)
        → χ.count ≡ false
        → χ.groups ≡ false
        → Permᴰ (whole_list q) (matching q)
        → (group_ids (page_of q).groups ≡ ids (take page_limit (drop (offset_of q) (whole_list q))))
          × ((page_of q).has_next ≡ ltb (offset_of q + page_limit) (length (whole_list q)))
          × ((page_of q).next_offset ≡ offset_of q + page_limit)
    unfolding groups_page
    page_of_lem q counted found once =
        let rows = bare_rows date_time base (take page_limit (drop (offset_of q) (whole_list q))) in
        let listed = by_path (keep (λ f. mem f.group_id (group_ids rows)) files) in
        let same = ids-bare_rows (take page_limit (drop (offset_of q) (whole_list q))) in
        (
          elim (Bool-cases χ.files) [
            | inl lost ↦ rw (found, lost) same
            | inr loaded ↦ rw (found, loaded) (ids-add_files listed rows ∙ same)
          ],
          rw counted (ap (ltb (offset_of q + page_limit)) (sym (length-perm once))),
          refl,
        )

    -- The link keeps what the page was asked for.
    link-matching :
        (print : ℕ → String) (q : PageQuery) → matching (next_link print (page_of q)) ≡ matching q
    unfolding groups_page
    link-matching print q =
        keep-where (if uses_active q.status then "" else q.status) q.status q.file_type
          (min_preset (shown_if (min_preset q.min) q.min)) (min_preset q.min) groups
          (λ g. matches_status-shown q.status g) (min_preset-shown q.min)

    link-whole_list :
        (print : ℕ → String) (q : PageQuery)
        → whole_list (next_link print (page_of q)) ≡ whole_list q
    unfolding groups_page
    link-whole_list print q =
        ap (λ o. ordered (order_or o) (matching (next_link print (page_of q))))
          (sort_order-shown q.sort)
        ∙ ap (ordered (order_or (sort_order q.sort))) (link-matching print q)

    follow_from :
        (print : ℕ → String) (pages o : ℕ) (q : PageQuery)
        → ((n : ℕ) → atoi (print n) ≡ some (pos n))
        → χ.count ≡ false
        → χ.groups ≡ false
        → Permᴰ (whole_list q) (matching q)
        → offset_of q ≡ o
        → length (whole_list q) ≤ o + pages
        → follow print pages q ≡ ids (drop o (whole_list q))
    follow_from print zero o q parsed counted found once at_o enough =
        sym (ap ids (drop_all o (whole_list q) (omega arith)))
    follow_from print (suc pages) o q parsed counted found once at_o enough =
        let (shown_at, more_at, next) = page_of_lem q counted found once in
        let shown = shown_at ∙ ap (λ k. ids (take page_limit (drop k (whole_list q)))) at_o in
        let more = more_at ∙ ap (λ k. ltb (k + page_limit) (length (whole_list q))) at_o in
        let left = drop o (whole_list q) in
        let split : ids (take page_limit left) ++ ids (drop page_limit left) ≡ ids left =
          sym (ids-append (take page_limit left) (drop page_limit left))
          ∙ ap ids (take-append-drop page_limit left) in
        let q' = next_link print (page_of q) in
        let whole = link-whole_list print q in
        let at_next : offset_of q' ≡ o + page_limit =
          ap (parameter (at_least 0) 0) (parsed (page_of q).next_offset)
          ∙ ground arith
          ∙ next
          ∙ ap (λ k. k + page_limit) at_o in
        let rest : follow print pages q' ≡ ids (drop page_limit left) =
          follow_from print pages (o + page_limit) q' parsed counted found
            (subst (λ l. Permᴰ l (matching q')) (sym whole)
              (subst (Permᴰ (whole_list q)) (sym (link-matching print q)) once))
            at_next (omega (arith, ap length whole))
          ∙ ap (λ l. ids (drop (o + page_limit) l)) whole
          ∙ ap ids (sym (drop_add o page_limit (whole_list q))) in
        elim (Bool-cases (ltb (o + page_limit) (length (whole_list q)))) [
          | inl further ↦
              rw (shown, more ∙ further) (ap (λ l. ids (take page_limit left) ++ l) rest ∙ split)
          | inr last ↦
              let nothing : ids (drop page_limit left) ≡ [] = ap ids (
                drop_add o page_limit (whole_list q)
                ∙ drop_all (o + page_limit) (whole_list q) (ground arith)) in
              rw (shown, more ∙ last)
                (ap (λ l. ids (take page_limit left) ++ l) (sym nothing) ∙ split)
        ]

    -- Where the queries of the groups are not refused, offsets are read as they are printed, and the order
    -- of the query is the same in every query, ties included: following the links to the next page, with
    -- the offset and the filters that each page puts in its link, shows from the first page on each group
    -- that the filters of the first query pass, once and in the order of the query, if one follows them
    -- for as many pages as there are groups.
    pub follow_lem :
        (print : ℕ → String) (pages : ℕ) (q : PageQuery)
        → ((n : ℕ) → atoi (print n) ≡ some (pos n))
        → χ.count ≡ false
        → χ.groups ≡ false
        → Permᴰ (whole_list q) (matching q)
        → offset_of q ≡ 0
        → length (whole_list q) ≤ pages
        → follow print pages q ≡ ids (whole_list q)
    follow_lem print pages q parsed counted found once first enough =
        follow_from print pages 0 q parsed counted found once first (omega arith)
