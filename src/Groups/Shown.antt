-- ===== src/Groups/Shown.antt =====
-- What List and Get of GroupsHandler (internal/api/handlers/groups.go) show of the same group.
use ditto.Prelude.{
  ℕ, ◌≡◌, refl, inl, inr, List, [], ◌∷◌, Option, none, some, Bool, true, false, String, ℤ,
  if◌then◌else◌, nat_beq_iff, keep, take, drop, ◌==◌, string_key, mem, AllDifferent, Member,
  Member-perm, Member-take, Member-drop, Member-keep, arith, ap, ◌∙◌, sym, subst,
}
use mathlib.Core.List.{Permᴰ}
use ditto.Tables.{DuplicateGroup, DuplicateFile, find_group, files_of, ids}
use ditto.Trash.Handlers.{parse_pagination}
use ditto.Groups.Query.{
  OrderBy, sort_order, order_or, where_clause, GroupItem, Query, page, detail, url, columns,
  group_items, file_items, list_groups, get_group,
}

pub mem-ids :
    (g : DuplicateGroup) (gs : List DuplicateGroup) → Member g gs → mem g.id (ids gs) ≡ true
mem-ids g [] m = absurd m
mem-ids g (x ∷ gs) (inl here) =
    ground (arith, ap (λ (y : DuplicateGroup). y.id) here, nat_beq_iff x.id g.id)
mem-ids g (x ∷ gs) (inr m) = ground (arith, mem-ids g gs m)

-- Where the ids differ, a group is found by its id.
pub find_group_lem :
    (g : DuplicateGroup) (gs : List DuplicateGroup)
    → AllDifferent (ids gs)
    → Member g gs
    → find_group g.id gs ≡ some g
find_group_lem g [] u m = absurd m
find_group_lem g (x ∷ gs) u (inl here) =
    let same : x.id ≡ g.id = ap (λ (y : DuplicateGroup). y.id) (sym here) in
    rw ((nat_beq_iff x.id g.id).1 same) (ap some (sym here))
find_group_lem g (x ∷ gs) u (inr m) =
    ground (arith, mem-ids g gs m, find_group_lem g gs u.1 m, nat_beq_iff x.id g.id)

module _ (rfc3339 : ℕ → String) (format_int : ℕ → String) where
  -- The columns of an item of the list.
  abbrev thumbnail_of : DuplicateGroup → String
  thumbnail_of g = url "/api/groups/" (format_int g.id) "/thumbnail"

  group_items-row :
      (it : GroupItem) (gs : List DuplicateGroup)
      → Member it (group_items rfc3339 format_int gs)
      → (g : DuplicateGroup) × Member g gs × (it ≡ columns rfc3339 format_int (thumbnail_of g) g)
  group_items-row it [] m = absurd m
  group_items-row it (x ∷ gs) (inl here) = (x, inl refl, here)
  group_items-row it (x ∷ gs) (inr m) =
      let (g, there, e) = group_items-row it gs m in (g, inr there, e)

  get_group-found :
      (parse_id : String → Option ℕ) (by_path : List DuplicateFile → List DuplicateFile)
      (groups : List DuplicateGroup) (files : List DuplicateFile) (id : String) (k : ℕ)
      (g : DuplicateGroup)
      → parse_id id ≡ some k
      → find_group k groups ≡ some g
      → get_group rfc3339 format_int parse_id by_path false false groups files id
        ≡ detail
            (columns rfc3339 format_int "" g)
            (file_items rfc3339 format_int (by_path (files_of k files)))
  unfolding get_group
  get_group-found parse_id by_path groups files id k g parsed found = ground arith

  -- If the ids of the groups differ and the queries are not refused, then an item of a page of List is of a
  -- group that the filters pass, and Get at its id answers with the same item but for the address of the
  -- thumbnail, which it leaves empty, and with the files of that id.
  pub get_group-list_groups :
      (parse_int : String → Option ℤ)
      (ordered : OrderBy → List DuplicateGroup → List DuplicateGroup) (χ : Bool)
      (groups : List DuplicateGroup) (files : List DuplicateFile) (q : Query)
      (items : List GroupItem) (total n skip : ℕ) (it : GroupItem) (parse_id : String → Option ℕ)
      (by_path : List DuplicateFile → List DuplicateFile) (id : String)
      → AllDifferent (ids groups)
      → ((o : OrderBy) (gs : List DuplicateGroup) → Permᴰ (ordered o gs) gs)
      → list_groups rfc3339 format_int parse_int ordered false χ groups q ≡ page items total n skip
      → Member it items
      → parse_id id ≡ some it.id
      → ((g : DuplicateGroup) × Member g groups
          × (where_clause q.status q.file_type
                (if q.min_reclaimable == "" then none else parse_int q.min_reclaimable)
                g
              ≡ true)
          × (it.id ≡ g.id))
        × (get_group rfc3339 format_int parse_id by_path false false groups files id
            ≡ detail
                (record it { thumbnail_url = "" })
                (file_items rfc3339 format_int (by_path (files_of it.id files))))
  unfolding list_groups columns
  get_group-list_groups parse_int ordered χ groups files q items total n skip it parse_id by_path id
        differ once listed member parsed =
      let (m, k) = parse_pagination parse_int q.limit q.offset in
      let min = if q.min_reclaimable == "" then none else parse_int q.min_reclaimable in
      let matching = keep (where_clause q.status q.file_type min) groups in
      let sorted = ordered (order_or (sort_order q.sort)) matching in
      let same_items : items ≡ group_items rfc3339 format_int (take m (drop k sorted)) =
        ground arith in
      let (g, there, e) =
        group_items-row it (take m (drop k sorted)) (subst (λ l. Member it l) same_items member) in
      let (row, passes) = Member-keep g (where_clause q.status q.file_type min) groups (
        Member-perm g (once (order_or (sort_order q.sort)) matching)
          (Member-drop g k sorted (Member-take g m (drop k sorted) there))) in
      let same_id : it.id ≡ g.id = ap (λ (y : GroupItem). y.id) e in
      let found : find_group it.id groups ≡ some g =
        ap (λ j. find_group j groups) same_id ∙ find_group_lem g groups differ row in
      (
        (g, row, passes, same_id),
        get_group-found parse_id by_path groups files id it.id g parsed found
            ∙ ap
                (λ (y : GroupItem).
                  detail (record y { thumbnail_url = "" })
                    (file_items rfc3339 format_int (by_path (files_of it.id files))))
                (sym e),
      )
