-- ===== src/Media.antt =====
-- Detect and ContentType (internal/media/media.go). strings.ToLower(filepath.Ext(path)) is the parameter
-- `ext`, mime.TypeByExtension is `type_by_extension`.
use ditto.Prelude.{String, Bool, false, ◌||◌, List, [], ◌∷◌, if◌then◌else◌, ◌==◌, string_key}
use ditto.Tables.{FileType, image, video, document, other}
pub mod Thumbnail
pub mod Exif

abbrev pub image_exts : List String
image_exts =
    ".jpg" ∷ ".jpeg" ∷ ".png" ∷ ".gif" ∷ ".bmp" ∷ ".webp" ∷ ".tiff" ∷ ".tif" ∷ ".heic" ∷ ".heif"
    ∷ ".avif" ∷ []

abbrev pub video_exts : List String
video_exts = ".mp4" ∷ ".mov" ∷ ".avi" ∷ ".mkv" ∷ ".wmv" ∷ ".flv" ∷ ".webm" ∷ ".m4v" ∷ []

abbrev pub document_exts : List String
document_exts =
    ".pdf" ∷ ".doc" ∷ ".docx" ∷ ".xls" ∷ ".xlsx" ∷ ".ppt" ∷ ".pptx" ∷ ".txt" ∷ ".odt" ∷ ".ods"
    ∷ ".odp" ∷ []

unfoldable pub has_ext : String → List String → Bool
has_ext e [] = false
has_ext e (x ∷ xs) = (x == e) || has_ext e xs

unfoldable pub detect : (String → String) → String → FileType
unfolding has_ext
detect ext path =
    if has_ext (ext path) image_exts
    then image
    else if has_ext (ext path) video_exts
    then video
    else if has_ext (ext path) document_exts
    then document
    else other

-- ContentType.
abbrev pub content_type : (String → String) → (String → String) → String → String
content_type ext type_by_extension path =
    let ct = type_by_extension (ext path) in if ct == "" then "application/octet-stream" else ct
