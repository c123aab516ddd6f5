-- ===== src/Media/Thumbnail.antt =====
-- Thumbnail, decodeImage and resizeFit (internal/media/media.go). The decoders, the encoder and the drawing
-- of Go's image libraries are the interface Images; how floats are compared and cut is Scales.
use ditto.Prelude.{
  ℕ, ◌≤◌, ◌<◌, ◌^◌, ◌≡◌, List, Option, none, some, Bool, true, false, not, ◌||◌, String,
  if◌then◌else◌, ltb, nat_beq, ◌==◌, string_key, arith,
}
use ditto.Disk.{Disk, Faults}
use ditto.Scan.Handlers.{Floats}
use ditto.Media.{has_ext, image_exts}

-- The image libraries. A new image has the bounds that it is made with.
pub record Images : Type 1 where
  pub Image : Type 0
  pub jpeg_decode : List ℕ → Option Image
  pub png_decode : List ℕ → Option Image
  pub gif_decode : List ℕ → Option Image
  pub webp_decode : List ℕ → Option Image
  pub decode_any : List ℕ → Option Image
  pub width : Image → ℕ
  pub height : Image → ℕ
  pub scaled : Image → ℕ → ℕ → Image
  pub jpeg_encode : Image → Option (List ℕ)
  pub width-scaled : (i : Image) (w h : ℕ) → width (scaled i w h) ≡ w
  pub height-scaled : (i : Image) (w h : ℕ) → height (scaled i w h) ≡ h

-- The size of an image or of a box, in one direction.
abbrev pub IsSize : ℕ → Type 0
IsSize n = (1 ≤ n) × (n < 2 ^ 31)

abbrev pub scale_of : (F : Floats) → ℕ → ℕ → F.Float
scale_of F d b = F.divided (F.of_int d) (F.of_int b)

-- Comparison of floats, and int(x) of one that is not negative. The laws are about quotients of sizes below
-- 2^31, which are finite: a quotient times its divisor is less than a pixel above the size, a quotient
-- that is rounded to one or more is not of a smaller size by a larger one, products with a size grow
-- with the scale_of, and the comparisons agree.
pub record Scales (F : Floats) : Type 0 where
  pub less : F.Float → F.Float → Bool
  pub at_least_one : F.Float → Bool
  pub trunc : F.Float → ℕ
  pub trunc-whole :
      (a d : ℕ) → IsSize a → IsSize d → trunc (F.times (F.of_int a) (scale_of F d a)) ≤ d
  pub trunc-less :
      (a d b e c : ℕ)
      → IsSize a
      → IsSize d
      → IsSize b
      → IsSize e
      → IsSize c
      → less (scale_of F d b) (scale_of F e c) ≡ true
      → trunc (F.times (F.of_int a) (scale_of F d b))
        ≤ trunc (F.times (F.of_int a) (scale_of F e c))
  pub trunc-not_less :
      (a d b e c : ℕ)
      → IsSize a
      → IsSize d
      → IsSize b
      → IsSize e
      → IsSize c
      → less (scale_of F d b) (scale_of F e c) ≡ false
      → trunc (F.times (F.of_int a) (scale_of F e c))
        ≤ trunc (F.times (F.of_int a) (scale_of F d b))
  pub at_least_one-whole :
      (a d : ℕ) → IsSize a → IsSize d → at_least_one (scale_of F d a) ≡ true → a ≤ d
  pub at_least_one-less :
      (d b e c : ℕ)
      → IsSize d
      → IsSize b
      → IsSize e
      → IsSize c
      → less (scale_of F d b) (scale_of F e c) ≡ true
      → at_least_one (scale_of F d b) ≡ true
      → at_least_one (scale_of F e c) ≡ true
  pub at_least_one-not_less :
      (d b e c : ℕ)
      → IsSize d
      → IsSize b
      → IsSize e
      → IsSize c
      → less (scale_of F d b) (scale_of F e c) ≡ false
      → at_least_one (scale_of F e c) ≡ true
      → at_least_one (scale_of F d b) ≡ true

-- What Thumbnail returns: nil, an error, or the JPEG.
pub data Thumb : Type 0 where
  no_thumbnail failed : Thumb
  made : List ℕ → Thumb

-- The formats that are decoded.
abbrev pub is_decoded : String → Bool
is_decoded e = (e == ".jpg") || (e == ".jpeg") || (e == ".png") || (e == ".gif") || (e == ".webp")

abbrev pub at_least_1 : ℕ → ℕ
at_least_1 n = if ltb n 1 then 1 else n

module _ (I : Images) where
  open I use {
    Image, jpeg_decode, png_decode, gif_decode, webp_decode, decode_any, width, height, scaled,
    jpeg_encode, width-scaled, height-scaled,
  }

  abbrev pub decode_image : String → List ℕ → Option Image
  decode_image e content =
      if (e == ".jpg") || (e == ".jpeg")
      then jpeg_decode content
      else if e == ".png"
      then png_decode content
      else if e == ".gif"
      then gif_decode content
      else if e == ".webp"
      then webp_decode content
      else decode_any content

  module _ (F : Floats) (S : Scales F) where
    open F use {Float, of_int, times, divided}
    open S use {less, at_least_one, trunc}

    unfoldable pub resize_fit : Image → ℕ → ℕ → Image
    resize_fit src dst_w dst_h =
        let w = width src in
        let h = height src in
        let scale_w = divided (of_int dst_w) (of_int w) in
        let scale_h = divided (of_int dst_h) (of_int h) in
        let scale = if less scale_h scale_w then scale_h else scale_w in
        if nat_beq w 0 || nat_beq h 0
        then src
        else if at_least_one scale
        then src
        else scaled src (at_least_1 (trunc (times (of_int w) scale)))
            (at_least_1 (trunc (times (of_int h) scale)))

    unfoldable pub thumbnail : (String → String) → Faults → Disk → String → ℕ → ℕ → Thumb
    thumbnail ext φ d path w h =
        let e = ext path in
        if not (has_ext e image_exts)
        then no_thumbnail
        else if not (is_decoded e)
        then no_thumbnail
        else if φ.open_file path
        then failed
        else elim (d path) [
          | none ↦ failed
          | some f ↦ elim (decode_image e f.content) [
            | none ↦ no_thumbnail
            | some src ↦ elim (jpeg_encode (resize_fit src w h)) [
              | none ↦ failed
              | some out ↦ made out
            ]
          ]
        ]

    -- After resizeFit, an image is no larger than the box, and not empty, where the image and the box are
    -- not empty and their sizes are below 2^31. Of floats it is assumed, for quotients of such sizes, that
    -- rounding adds less than a pixel to a quotient times its divisor and does not take the quotient of a
    -- smaller size by a larger one to 1, and that products and the test against 1 grow with the quotient.
    pub resize_fit_lem :
        (src : Image) (dst_w dst_h : ℕ)
        → IsSize (width src)
        → IsSize (height src)
        → IsSize dst_w
        → IsSize dst_h
        → ((1 ≤ width (resize_fit src dst_w dst_h)) × (width (resize_fit src dst_w dst_h) ≤ dst_w))
          × ((1 ≤ height (resize_fit src dst_w dst_h))
              × (height (resize_fit src dst_w dst_h) ≤ dst_h))
    unfolding resize_fit
    resize_fit_lem src dst_w dst_h wide high box_w box_h =
        let w = width src in
        let h = height src in
        let sw = divided (of_int dst_w) (of_int w) in
        let sh = divided (of_int dst_h) (of_int h) in
        ground (
          arith,
          S.trunc-whole w dst_w wide box_w,
          S.trunc-whole h dst_h high box_h,
          S.trunc-less w dst_h h dst_w w wide box_h high box_w wide,
          S.trunc-not_less h dst_h h dst_w w high box_h high box_w wide,
          S.at_least_one-whole w dst_w wide box_w,
          S.at_least_one-whole h dst_h high box_h,
          S.at_least_one-less dst_h h dst_w w box_h high box_w wide,
          S.at_least_one-not_less dst_h h dst_w w box_h high box_w wide,
          width-scaled src (at_least_1 (trunc (times (of_int w) sw)))
              (at_least_1 (trunc (times (of_int h) sw))),
          width-scaled src (at_least_1 (trunc (times (of_int w) sh)))
              (at_least_1 (trunc (times (of_int h) sh))),
          height-scaled src (at_least_1 (trunc (times (of_int w) sw)))
              (at_least_1 (trunc (times (of_int h) sw))),
          height-scaled src (at_least_1 (trunc (times (of_int w) sh)))
              (at_least_1 (trunc (times (of_int h) sh))),
        )
