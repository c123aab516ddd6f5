-- ===== src/Files.antt =====
-- FilesHandler (internal/api/handlers/files.go), and GroupsHandler.Thumbnail
-- (internal/api/handlers/groups.go). What the image libraries make of a path is a parameter, which
-- Media.Thumbnail and Media.Exif fill.
use ditto.Prelude.{
  find_by, ℕ, List, [], ◌∷◌, Option, none, some, Bool, true, false, ◌&&◌, String, if◌then◌else◌,
  nat_beq, keep, take,
}
use ditto.Disk.{Disk, Faults, Stat, missing, denied, found, stat}
use ditto.Tables.{DuplicateFile, FileType, image, video, document, other}
use ditto.Media.Thumbnail.{Thumb, no_thumbnail, failed, made}
use ditto.Media.Exif.{ImageMeta}
pub mod Previewed

abbrev pub find_file : ℕ → List DuplicateFile → Option DuplicateFile
find_file = find_by (λ f. f.id)

abbrev pub is_image : FileType → Bool
is_image image = true
is_image video = false
is_image document = false
is_image other = false

-- fileInfoResponse.
pub record FileInfoReply (Float : Type 0) : Type 0 where
  pub id : ℕ
  pub path : String
  pub filename : String
  pub size : ℕ
  pub modified : ℕ
  pub mime_type : String
  pub file_type : FileType
  pub image : Option (ImageMeta Float)

pub data FileReply (Float : Type 0) : Type 0 where
  invalid_id not_found internal_error : FileReply Float
  info_of : FileInfoReply Float → FileReply Float
  jpeg : List ℕ → FileReply Float
  -- the content type, and the path whose file http.ServeFile sends
  serve_file : String → String → FileReply Float

module _ (Float : Type 0) (parse_int : String → Option ℕ) (refused : Bool)
    (files : List DuplicateFile) where
  -- The look-up that the handlers share, by the id in the address.
  abbrev pub with_file : (DuplicateFile → FileReply Float) → String → FileReply Float
  with_file answer id = elim (parse_int id) [
    | none ↦ invalid_id
    | some k ↦
        if refused
        then internal_error
        else elim (find_file k files) [ none ↦ not_found | some f ↦ answer f ]
  ]

  -- Info.
  unfoldable pub file_info :
      (String → String) → (String → String) → (String → ImageMeta Float) → String → FileReply Float
  file_info base content_type extract_image_meta = with_file (λ f. info_of (record {
    id = f.id;
    path = f.path;
    filename = base f.path;
    size = f.size;
    modified = f.mtime;
    mime_type = content_type f.path;
    file_type = f.file_type;
    image = if is_image f.file_type then some (extract_image_meta f.path) else none;
  }))

  abbrev pub thumb_reply : Thumb → FileReply Float
  thumb_reply no_thumbnail = not_found
  thumb_reply failed = internal_error
  thumb_reply (made out) = jpeg out

  -- Thumbnail; `thumbnail` is media.Thumbnail in a box of 320 by 320.
  unfoldable pub file_thumbnail : (String → Thumb) → String → FileReply Float
  file_thumbnail thumbnail =
      with_file (λ f. if is_image f.file_type then thumb_reply (thumbnail f.path) else not_found)

  -- Preview.
  unfoldable pub file_preview : Faults → Disk → (String → String) → String → FileReply Float
  file_preview φ d content_type = with_file (λ f. elim (stat φ d f.path) [
    | missing ↦ not_found
    | denied ↦ serve_file (content_type f.path) f.path
    | found g ↦ serve_file (content_type f.path) f.path
  ])

  -- The loop over the candidates: the first that has a thumbnail.
  abbrev pub first_thumbnail : (String → Thumb) → List DuplicateFile → FileReply Float
  first_thumbnail thumbnail [] = not_found
  first_thumbnail thumbnail (f ∷ fs) = elim (thumbnail f.path) [
    | no_thumbnail ↦ first_thumbnail thumbnail fs
    | failed ↦ first_thumbnail thumbnail fs
    | made out ↦ jpeg out
  ]

  abbrev pub is_candidate : ℕ → DuplicateFile → Bool
  is_candidate k f = nat_beq f.group_id k && is_image f.file_type

  -- GroupsHandler.Thumbnail; `by_path` orders the rows.
  unfoldable pub group_thumbnail :
      (List DuplicateFile → List DuplicateFile) → (String → Thumb) → String → FileReply Float
  group_thumbnail by_path thumbnail id = elim (parse_int id) [
    | none ↦ invalid_id
    | some k ↦
        if refused
        then internal_error
        else first_thumbnail thumbnail (take 10 (by_path (keep (is_candidate k) files)))
  ]
