-- ===== src/Pages/Groups.antt =====
-- The page of the groups (internal/api/pages.go, groupsPage). filepath.Base, strconv's numbers, the format
-- of a time and the orders of the queries' rows are parameters.
use Prim.Native.String as Str
use ditto.Prelude.{
  ℕ, ◌+◌, ◌-◌, ◌^◌, List, [], ◌∷◌, Option, none, some, Bool, not, ◌&&◌, String, ℤ, pos, at_least,
  if◌then◌else◌, ltb, nat_beq, ◌==◌, string_key, keep, take, drop, length, mem,
}
use ditto.Tables.{DuplicateGroup, DuplicateFile, GroupStatus, FileType}
use ditto.Trash.Handlers.{parameter}
use ditto.Groups.Query.{OrderBy, sort_order, order_or, where_clause, uses_active, is_active}

abbrev pub page_limit : ℕ
page_limit = 20

pub record FileRow : Type 0 where
  pub id : ℕ
  pub path : String
  pub size : ℕ
  pub mtime : String
  pub file_type : FileType

-- groupWithFiles.
pub record GroupRow : Type 0 where
  pub id : ℕ
  pub content_hash : String
  pub hash_short : String
  pub display_name : String
  pub file_size : ℕ
  pub file_count : ℕ
  pub reclaimable_bytes : ℕ
  pub file_type : FileType
  pub status : GroupStatus
  pub files : List FileRow

-- groupsPageData.
pub record GroupsPage : Type 0 where
  pub groups : List GroupRow
  pub total : ℕ
  pub limit : ℕ
  pub offset : ℕ
  pub status_filter : String
  pub type_filter : String
  pub sort_filter : String
  pub min_filter : String
  pub next_offset : ℕ
  pub prev_offset : ℕ
  pub has_next : Bool
  pub has_prev : Bool
  pub total_active_groups : ℕ
  pub total_active_files : ℕ
  pub total_reclaimable : ℕ

-- minPresets.
abbrev pub min_preset : String → Option ℤ
min_preset s =
    if s == "10mb"
    then some (pos 10_485_760)
    else if s == "100mb"
    then some (pos 104_857_600)
    else if s == "1gb"
    then some (pos 1_073_741_824)
    else none

-- What a filter is shown as: as it was asked for, if it is known.
abbrev pub shown_if : {A : Type 0} → Option A → String → String
shown_if none s = ""
shown_if (some a) s = s

-- HashShort.
abbrev pub hash_short_of : String → String
hash_short_of h = if ltb 8 (Str.len h) then Str.slice h 0 8 else h

abbrev pub sum_counts : List DuplicateGroup → ℕ
sum_counts [] = 0
sum_counts (g ∷ gs) = g.file_count + sum_counts gs

abbrev pub sum_reclaimable : List DuplicateGroup → ℕ
sum_reclaimable [] = 0
sum_reclaimable (g ∷ gs) = g.reclaimable_bytes + sum_reclaimable gs

abbrev pub active_groups : List DuplicateGroup → List DuplicateGroup
active_groups = keep (λ g. is_active g.status)

abbrev pub group_ids : List GroupRow → List ℕ
group_ids [] = []
group_ids (g ∷ gs) = g.id ∷ group_ids gs

-- What the query of the form holds.
pub record PageQuery : Type 0 where
  pub status : String
  pub file_type : String
  pub sort : String
  pub min : String
  pub offset : String

-- Which queries are refused: of the totals, of the number of the groups, of the groups and of the files.
pub record QueryFaults : Type 0 where
  pub totals : Bool
  pub count : Bool
  pub groups : Bool
  pub files : Bool

module _ (date_time : ℕ → String) (base : String → String) where
  -- A row without its files.
  abbrev pub bare_row : DuplicateGroup → GroupRow
  bare_row g = record {
    id = g.id;
    content_hash = g.content_hash;
    hash_short = hash_short_of g.content_hash;
    display_name = Str.◌++◌ (hash_short_of g.content_hash) "…";
    file_size = g.file_size;
    file_count = g.file_count;
    reclaimable_bytes = g.reclaimable_bytes;
    file_type = g.file_type;
    status = g.status;
    files = [];
  }

  abbrev pub bare_rows : List DuplicateGroup → List GroupRow
  bare_rows [] = []
  bare_rows (g ∷ gs) = bare_row g ∷ bare_rows gs

  abbrev pub file_rows : List DuplicateFile → List FileRow
  file_rows [] = []
  file_rows (f ∷ fs) =
      record {
        id = f.id;
        path = f.path;
        size = f.size;
        mtime = date_time f.mtime;
        file_type = f.file_type;
      }
      ∷ file_rows fs

  -- The name of a group is that of its first file.
  abbrev pub with_files : GroupRow → List FileRow → GroupRow
  with_files g [] = record g { files = [] }
  with_files g (f ∷ fs) = record g { files = f ∷ fs; display_name = base f.path }

  -- The files of all groups of the page, by group.
  abbrev pub add_files : List DuplicateFile → List GroupRow → List GroupRow
  add_files files [] = []
  add_files files (g ∷ gs) =
      with_files g (file_rows (keep (λ f. nat_beq f.group_id g.id) files)) ∷ add_files files gs

  -- groupsPage: `ordered` orders the groups, and `by_path` the files.
  unfoldable pub groups_page :
      (String → Option ℤ)
      → (OrderBy → List DuplicateGroup → List DuplicateGroup)
      → (List DuplicateFile → List DuplicateFile)
      → QueryFaults
      → List DuplicateGroup
      → List DuplicateFile
      → PageQuery
      → GroupsPage
  groups_page atoi ordered by_path χ groups files q =
      let offset = parameter (at_least 0) 0 (atoi q.offset) in
      let matching = keep (where_clause q.status q.file_type (min_preset q.min)) groups in
      let found = take page_limit (drop offset (ordered (order_or (sort_order q.sort)) matching)) in
      let rows = if χ.groups then [] else bare_rows found in
      let listed = by_path (keep (λ f. mem f.group_id (group_ids rows)) files) in
      let total = if χ.count then 0 else length matching in
      let active = active_groups groups in
      let summed =
        not χ.totals && ltb (sum_counts active) (2 ^ 63) && ltb (sum_reclaimable active) (2 ^ 63) in
      record {
        groups = if χ.files then rows else add_files listed rows;
        total = total;
        limit = page_limit;
        offset = offset;
        status_filter = if uses_active q.status then "" else q.status;
        type_filter = q.file_type;
        sort_filter = shown_if (sort_order q.sort) q.sort;
        min_filter = shown_if (min_preset q.min) q.min;
        next_offset = offset + page_limit;
        prev_offset = offset - page_limit;
        has_next = ltb (offset + page_limit) total;
        has_prev = ltb 0 offset;
        total_active_groups = if summed then length active else 0;
        total_active_files = if summed then sum_counts active else 0;
        total_reclaimable = if summed then sum_reclaimable active else 0;
      }
