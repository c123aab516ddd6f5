-- ===== src/Tests/Listing.antt =====
-- The list of the groups (internal/api/handlers/groups.go) and their page (internal/api/pages.go) on more
-- groups than a page shows.
use ditto.Prelude.{
  ℕ, zero, suc, ◌≡◌, refl, inl, inr, Member, List, [], ◌∷◌, Option, none, some, true, false, String,
  ℤ, pos, arith,
}
use mathlib.Core.List.{Permᴰ}
use ditto.Tables.{DuplicateGroup, DuplicateFile, image, unresolved, ids, files_of}
use ditto.Trash.Handlers.{parse_pagination}
use ditto.Groups.Query.{
  where_clause, OrderBy, Query, GroupItem, page, detail, list_groups, get_group, group_items,
  file_items, columns, url,
}
use ditto.Groups.Shown.{get_group-list_groups}
use ditto.Pages.Groups.{QueryFaults, PageQuery}
use ditto.Pages.Paging.{follow, whole_list, follow_lem}
use ditto.Tests.Codec.{codec}

abbrev pub group : ℕ → DuplicateGroup
group k = record {
  id = k;
  content_hash = "0123456789abcdef";
  file_size = 2;
  file_count = 2;
  reclaimable_bytes = 2;
  file_type = image;
  status = unresolved;
  ignored_at = none;
  resolved_at = none;
  first_seen_scan_id = 1;
  last_seen_scan_id = 1;
  created_at = 10;
  updated_at = 10;
}

-- Groups with the ids from `n` to 1.
abbrev pub groups : ℕ → List DuplicateGroup
groups zero = []
groups (suc n) = group (suc n) ∷ groups n

abbrev pub row : ℕ → DuplicateFile
row k = record {
  id = k;
  group_id = 2;
  scan_id = 1;
  path = "/photos/a.jpg";
  size = 2;
  mtime = 3;
  file_type = image;
}

abbrev pub as_stored : OrderBy → List DuplicateGroup → List DuplicateGroup
as_stored o gs = gs

pub perm_refl : (gs : List DuplicateGroup) → Permᴰ gs gs
perm_refl [] = Permᴰ.nil
perm_refl (g ∷ gs) = Permᴰ.cons refl (perm_refl gs)

abbrev pub same_files : List DuplicateFile → List DuplicateFile
same_files fs = fs

abbrev pub date : ℕ → String
date t = "2026-01-02"

abbrev number : ℕ → String
number n = "2"

abbrev pub all_groups : PageQuery
all_groups = record { status = ""; file_type = "image"; sort = "size"; min = ""; offset = "" }

abbrev no_page_faults : QueryFaults
no_page_faults = record { totals = true; count = false; groups = false; files = true }

follow_lem_example :
    follow date
      (λ p. p)
      codec.atoi
      as_stored
      same_files
      no_page_faults
      (groups 25)
      []
      (λ n. codec.itoa (pos n))
      25
      all_groups
    ≡ ids (
        whole_list date
          (λ p. p)
          codec.atoi
          as_stored
          same_files
          no_page_faults
          (groups 25)
          []
          all_groups)
follow_lem_example =
    follow_lem date (λ p. p) codec.atoi as_stored same_files no_page_faults (groups 25) []
      (λ n. codec.itoa (pos n)) 25 all_groups (λ n. codec.atoi-itoa (pos n)) refl refl (perm_refl _)
      refl (omega arith)

abbrev query : Query
query = record {
  status = "active";
  file_type = "";
  min_reclaimable = "1";
  sort = "count";
  limit = "";
  offset = "";
}

abbrev number_one : String → Option ℤ
number_one s = some (pos 1)

abbrev pub parse_two : String → Option ℕ
parse_two id = some 2

three_listed :
    list_groups date number number_one as_stored false false (groups 3) query
    ≡ page (group_items date number (groups 3)) 3 50 0
unfolding list_groups parse_pagination
three_listed = refl

abbrev second : GroupItem
second = columns date number (url "/api/groups/" (number 2) "/thumbnail") (group 2)

id_two : parse_two "2" ≡ some second.id
unfolding columns
id_two = refl

get_group-list_groups_example :
    ((g : DuplicateGroup) × Member g (groups 3)
      × (where_clause "active" "" (some (pos 1)) g ≡ true)
      × (second.id ≡ g.id))
    × (get_group date number parse_two same_files false false (groups 3) (row 7 ∷ []) "2"
        ≡ detail
            (record second { thumbnail_url = "" })
            (file_items date number (files_of second.id (row 7 ∷ []))))
get_group-list_groups_example =
    get_group-list_groups date number number_one as_stored false (groups 3) (row 7 ∷ []) query
      (group_items date number (groups 3)) 3 50 0 second parse_two same_files "2"
      (refl, (refl, (refl, tt))) (λ o gs. perm_refl gs) three_listed (inr (inl refl)) id_two
