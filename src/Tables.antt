-- ===== src/Tables.antt =====
-- The tables duplicate_groups, duplicate_files and file_cache
-- (internal/db/migrations/001_initial.sql), by rows.
use ditto.Prelude.{
  ℕ, String, Option, none, some, List, [], ◌∷◌, if◌then◌else◌, nat_beq, keep, ◌≡◌, arith,
}

pub data GroupStatus : Type 0 where
  unresolved ignored resolved watching watching_alert : GroupStatus

pub data FileType : Type 0 where
  image video document other : FileType

pub record DuplicateGroup : Type 0 where
  pub id : ℕ
  pub content_hash : String
  pub file_size : ℕ
  pub file_count : ℕ
  pub reclaimable_bytes : ℕ
  pub file_type : FileType
  pub status : GroupStatus
  pub ignored_at : Option ℕ
  pub resolved_at : Option ℕ
  pub first_seen_scan_id : ℕ
  pub last_seen_scan_id : ℕ
  pub created_at : ℕ
  pub updated_at : ℕ

pub record DuplicateFile : Type 0 where
  pub id : ℕ
  pub group_id : ℕ
  pub scan_id : ℕ
  pub path : String
  pub size : ℕ
  pub mtime : ℕ
  pub file_type : FileType

pub record CacheEntry : Type 0 where
  pub path : String
  pub size : ℕ
  pub mtime : ℕ
  pub full_hash : String
  pub cached_at : ℕ
  pub scan_id : ℕ

-- SELECT … FROM duplicate_groups WHERE id = ?.
abbrev pub find_group : ℕ → List DuplicateGroup → Option DuplicateGroup
find_group k [] = none
find_group k (g ∷ gs) = if nat_beq g.id k then some g else find_group k gs

-- UPDATE duplicate_groups … WHERE id = ?.
abbrev pub update_group :
    ℕ → (DuplicateGroup → DuplicateGroup) → List DuplicateGroup → List DuplicateGroup
update_group k f [] = []
update_group k f (g ∷ gs) = (if nat_beq g.id k then f g else g) ∷ update_group k f gs

-- SELECT … FROM duplicate_files WHERE group_id = ?.
abbrev pub files_of : ℕ → List DuplicateFile → List DuplicateFile
files_of k = keep (λ f. nat_beq f.group_id k)

-- The ids of some groups.
abbrev pub ids : List DuplicateGroup → List ℕ
ids [] = []
ids (g ∷ gs) = g.id ∷ ids gs

abbrev pub map_option :
    (DuplicateGroup → DuplicateGroup) → Option DuplicateGroup → Option DuplicateGroup
map_option f none = none
map_option f (some g) = some (f g)

pub find_group-update :
    (j k : ℕ) (f : DuplicateGroup → DuplicateGroup) (gs : List DuplicateGroup)
    → ((g : DuplicateGroup) → (f g).id ≡ g.id)
    → find_group j (update_group k f gs)
      ≡ (if nat_beq j k then map_option f (find_group j gs) else find_group j gs)
find_group-update j k f [] h = ground arith
find_group-update j k f (g ∷ gs) h = ground (arith, h g, find_group-update j k f gs h)
