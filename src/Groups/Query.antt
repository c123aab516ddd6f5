-- ===== src/Groups/Query.antt =====
-- List and Get of GroupsHandler (internal/api/handlers/groups.go). strconv's numbers, the format of a time
-- and the orders of the queries' rows are parameters.
use Prim.Native.String as Str
use ditto.Prelude.{
  ℕ, List, [], ◌∷◌, Option, none, some, Bool, true, ◌&&◌, ◌||◌, String, ℤ, pos, negsuc,
  if◌then◌else◌, leb, ◌==◌, string_key, keep, take, drop, length,
}
use ditto.Tables.{
  DuplicateGroup, DuplicateFile, GroupStatus, unresolved, ignored, resolved, watching,
  watching_alert, FileType, image, video, document, other, find_group, files_of,
}
use ditto.Trash.Handlers.{parse_pagination}

-- The texts of the two columns with a CHECK.
abbrev pub status_text : GroupStatus → String
status_text unresolved = "unresolved"
status_text ignored = "ignored"
status_text resolved = "resolved"
status_text watching = "watching"
status_text watching_alert = "watching_alert"

abbrev pub type_text : FileType → String
type_text image = "image"
type_text video = "video"
type_text document = "document"
type_text other = "other"

-- The conditions of the query.
abbrev pub is_active : GroupStatus → Bool
is_active s = (status_text s == "unresolved") || (status_text s == "watching_alert")

abbrev pub uses_active : String → Bool
uses_active status = (status == "") || (status == "active")

abbrev pub matches_status : String → DuplicateGroup → Bool
matches_status status g =
    if uses_active status
    then is_active g.status
    else if status == "all"
    then true
    else status_text g.status == status

abbrev pub matches_type : String → DuplicateGroup → Bool
matches_type file_type g = if file_type == "" then true else type_text g.file_type == file_type

abbrev pub at_least_bytes : Option ℤ → DuplicateGroup → Bool
at_least_bytes none g = true
at_least_bytes (some (pos n)) g = leb n g.reclaimable_bytes
at_least_bytes (some (negsuc n)) g = true

abbrev pub where_clause : String → String → Option ℤ → DuplicateGroup → Bool
where_clause status file_type min g =
    matches_status status g && matches_type file_type g && at_least_bytes min g

pub data OrderBy : Type 0 where
  by_reclaimable by_size by_count by_newest : OrderBy

-- sortOrders.
abbrev pub sort_order : String → Option OrderBy
sort_order s =
    if s == "size"
    then some by_size
    else if s == "count"
    then some by_count
    else if s == "newest"
    then some by_newest
    else none

abbrev pub order_or : Option OrderBy → OrderBy
order_or none = by_reclaimable
order_or (some o) = o

pub record GroupItem : Type 0 where
  pub id : ℕ
  pub content_hash : String
  pub file_size : ℕ
  pub file_count : ℕ
  pub reclaimable_bytes : ℕ
  pub file_type : FileType
  pub status : GroupStatus
  pub thumbnail_url : String
  pub created_at : String
  pub updated_at : String

pub record FileItem : Type 0 where
  pub id : ℕ
  pub path : String
  pub size : ℕ
  pub mtime : String
  pub file_type : FileType
  pub thumbnail_url : String
  pub preview_url : String

pub data Reply : Type 0 where
  invalid_id not_found internal_error : Reply
  -- the items, their number in all, the limit and the offset
  page : List GroupItem → ℕ → ℕ → ℕ → Reply
  detail : GroupItem → List FileItem → Reply

abbrev pub url : String → String → String → String
url before id after = Str.◌++◌ before (Str.◌++◌ id after)

-- The query parameters of List.
pub record Query : Type 0 where
  pub status : String
  pub file_type : String
  pub min_reclaimable : String
  pub sort : String
  pub limit : String
  pub offset : String

module _ (rfc3339 : ℕ → String) (format_int : ℕ → String) where
  -- The columns, and the address of the thumbnail, which Get leaves out.
  unfoldable pub columns : String → DuplicateGroup → GroupItem
  columns thumbnail g = record {
    id = g.id;
    content_hash = g.content_hash;
    file_size = g.file_size;
    file_count = g.file_count;
    reclaimable_bytes = g.reclaimable_bytes;
    file_type = g.file_type;
    status = g.status;
    thumbnail_url = thumbnail;
    created_at = rfc3339 g.created_at;
    updated_at = rfc3339 g.updated_at;
  }

  abbrev pub group_items : List DuplicateGroup → List GroupItem
  group_items [] = []
  group_items (g ∷ gs) =
      columns (url "/api/groups/" (format_int g.id) "/thumbnail") g ∷ group_items gs

  abbrev pub file_items : List DuplicateFile → List FileItem
  file_items [] = []
  file_items (f ∷ fs) =
      record {
        id = f.id;
        path = f.path;
        size = f.size;
        mtime = rfc3339 f.mtime;
        file_type = f.file_type;
        thumbnail_url = url "/api/files/" (format_int f.id) "/thumbnail";
        preview_url = url "/api/files/" (format_int f.id) "/preview";
      }
      ∷ file_items fs

  -- List: `ψ` and `χ` say whether the queries of the rows and of the total are refused, the latter of
  -- which leaves 0.
  unfoldable pub list_groups :
      (String → Option ℤ)
      → (OrderBy → List DuplicateGroup → List DuplicateGroup)
      → Bool
      → Bool
      → List DuplicateGroup
      → Query
      → Reply
  list_groups parse_int ordered ψ χ groups q =
      let (n, skip) = parse_pagination parse_int q.limit q.offset in
      let min = if q.min_reclaimable == "" then none else parse_int q.min_reclaimable in
      let matching = keep (where_clause q.status q.file_type min) groups in
      let rows = take n (drop skip (ordered (order_or (sort_order q.sort)) matching)) in
      if ψ
      then internal_error
      else page (group_items rows) (if χ then 0 else length matching) n skip

  -- Get: `ψ` and `χ` say whether the queries of the group and of its files are refused.
  unfoldable pub get_group :
      (String → Option ℕ)
      → (List DuplicateFile → List DuplicateFile)
      → Bool
      → Bool
      → List DuplicateGroup
      → List DuplicateFile
      → String
      → Reply
  get_group parse_id by_path ψ χ groups files id = elim (parse_id id) [
    | none ↦ invalid_id
    | some k ↦ if ψ then internal_error else elim (find_group k groups) [
      | none ↦ not_found
      | some g ↦
          if χ
          then internal_error
          else detail (columns "" g) (file_items (by_path (files_of k files)))
    ]
  ]
