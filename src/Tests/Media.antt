-- ===== src/Tests/Media.antt =====
-- Thumbnails (internal/media/media.go) of images whose content is their size, and of the files of a group
-- (internal/api/handlers). Floats are fractions.
use ditto.Prelude.{
  ℕ, ◌*◌, ◌/◌, ◌≤◌, ◌≡◌, refl, List, [], ◌∷◌, Option, none, some, Bool, true, false, String, ltb,
  leb, if◌then◌else◌, ◌==◌, string_key, arith, pos, negsuc,
}
use native.Mathlib.Nat as Nat
use ditto.Tables.{DuplicateFile, video}
use ditto.Scan.Handlers.{Floats}
use ditto.Media.Thumbnail.{
  Images, Scales, scale_of, Thumb, failed, made, resize_fit, resize_fit_lem,
}
use ditto.Files.{jpeg, group_thumbnail}
use ditto.Tests.Codec.{codec}
use ditto.Tests.Listing.{row, same_files}

-- Fractions, in the place of floats.
abbrev floats : Floats
floats = record {
  Float = ℕ × ℕ;
  of_int = λ n. (n, 1);
  times = λ x y. (x.0 * y.0, x.1 * y.1);
  divided = λ x y. (x.0 * y.1, x.1 * y.0);
}

abbrev below : ℕ × ℕ → ℕ × ℕ → Bool
below x y = ltb (x.0 * y.1) (y.0 * x.1)

abbrev from_one : ℕ × ℕ → Bool
from_one x = leb x.1 x.0

abbrev whole_part : ℕ × ℕ → ℕ
whole_part x = x.0 / x.1

-- A fraction that is no greater than another has no greater multiples.
div-le-div : (a d b e c : ℕ) → 1 ≤ b → 1 ≤ c → d * c ≤ e * b → (a * d) / b ≤ (a * e) / c
div-le-div a d b e c hb hc h =
    let q = (a * d) / b in
    let parts : b * q ≤ a * d = Nat.mul-div-le (a * d) b in
    let times_c : c * (b * q) ≤ c * (a * d) = Nat.mul-le-mul_left c parts in
    let times_a : a * (d * c) ≤ a * (e * b) = Nat.mul-le-mul_left a h in
    let both : b * (q * c) ≤ b * (a * e) = omega (arith, times_c, times_a) in
    (Nat.le-div_iff_mul-le {x = q} {y = a * e} hc).1 (Nat.le_of_mul-le-mul_left both hb)

whole : (a d : ℕ) → 1 ≤ a → whole_part (floats.times (a, 1) (scale_of floats d a)) ≤ d
whole a d h =
    let k = 1 * (1 * a) in
    let q = (a * (d * 1)) / k in
    let parts : k * q ≤ a * (d * 1) = Nat.mul-div-le (a * (d * 1)) k in
    let both : a * q ≤ a * d = omega (arith, parts) in Nat.le_of_mul-le-mul_left both h

grows :
    (a d b e c : ℕ)
    → 1 ≤ b
    → 1 ≤ c
    → (d * 1) * (1 * c) ≤ (e * 1) * (1 * b)
    → whole_part (floats.times (a, 1) (scale_of floats d b))
      ≤ whole_part (floats.times (a, 1) (scale_of floats e c))
grows a d b e c hb hc h =
    div-le-div a (d * 1) (1 * (1 * b)) (e * 1) (1 * (1 * c)) (omega arith) (omega arith)
      (omega (arith, h))

ltb-le : (m n : ℕ) → ltb m n ≡ true → m ≤ n
ltb-le m n h = ground arith

ltb-ge : (m n : ℕ) → ltb m n ≡ false → n ≤ m
ltb-ge m n h = ground arith

leb-le : (m n : ℕ) → leb m n ≡ true → m ≤ n
leb-le m n h = ground arith

le-leb : (m n : ℕ) → m ≤ n → leb m n ≡ true
le-leb m n h = ground arith

-- A fraction that is no less than one of at least 1 is one.
from_one-grows :
    (d b e c : ℕ) → 1 ≤ b → (d * 1) * (1 * c) ≤ (e * 1) * (1 * b) → 1 * b ≤ d * 1 → 1 * c ≤ e * 1
from_one-grows d b e c hb h one =
    let times_c : c * b ≤ c * d = Nat.mul-le-mul_left c (omega arith) in
    let both : b * c ≤ b * e = omega (arith, times_c, h) in
    let less : c ≤ e = Nat.le_of_mul-le-mul_left both hb in omega (arith, less)

abbrev scales : Scales floats
scales = record {
  less = below;
  at_least_one = from_one;
  trunc = whole_part;
  trunc-whole = λ a d ha hd. whole a d ha.0;
  trunc-less = λ a d b e c ha hd hb he hc l.
      grows a d b e c hb.0 hc.0 (ltb-le ((d * 1) * (1 * c)) ((e * 1) * (1 * b)) l);
  trunc-not_less = λ a d b e c ha hd hb he hc l.
      grows a e c d b hc.0 hb.0 (ltb-ge ((d * 1) * (1 * c)) ((e * 1) * (1 * b)) l);
  at_least_one-whole = λ a d ha hd one. omega (arith, leb-le (1 * a) (d * 1) one);
  at_least_one-less = λ d b e c hd hb he hc l one. le-leb (1 * c) (e * 1) (
      from_one-grows d b e c hb.0 (ltb-le ((d * 1) * (1 * c)) ((e * 1) * (1 * b)) l)
        (leb-le (1 * b) (d * 1) one));
  at_least_one-not_less = λ d b e c hd hb he hc l one. le-leb (1 * b) (d * 1) (
      from_one-grows e c d b hc.0 (ltb-ge ((d * 1) * (1 * c)) ((e * 1) * (1 * b)) l)
        (leb-le (1 * c) (e * 1) one));
}

-- Two numbers are an image of that size.
abbrev read_size : List ℕ → Option (ℕ × ℕ)
read_size [] = none
read_size (w ∷ []) = none
read_size (w ∷ h ∷ rest) = some (w, h)

abbrev images : Images
images = record {
  Image = ℕ × ℕ;
  jpeg_decode = read_size;
  png_decode = read_size;
  gif_decode = read_size;
  webp_decode = read_size;
  decode_any = read_size;
  width = λ i. i.0;
  height = λ i. i.1;
  scaled = λ i w h. (w, h);
  jpeg_encode = λ i. some (i.0 ∷ i.1 ∷ []);
  width-scaled = λ i w h. refl;
  height-scaled = λ i w h. refl;
}

kept_small : resize_fit images floats scales (100, 200) 320 320 ≡ (100, 200)
unfolding resize_fit
kept_small = refl

resize_fit_lem_example :
    ((1 ≤ (resize_fit images floats scales (640, 1280) 320 320).0)
      × ((resize_fit images floats scales (640, 1280) 320 320).0 ≤ 320))
    × ((1 ≤ (resize_fit images floats scales (640, 1280) 320 320).1)
        × ((resize_fit images floats scales (640, 1280) 320 320).1 ≤ 320))
resize_fit_lem_example =
    resize_fit_lem images floats scales (640, 1280) 320 320 (omega arith, omega arith)
      (omega arith, omega arith) (omega arith, omega arith) (omega arith, omega arith)

-- The files of two groups.
abbrev files : List DuplicateFile
files =
    record (row 7) { file_type = video }
    ∷ record (row 8) { path = "/photos/b.jpg" }
    ∷ record (row 9) { group_id = 3 }
    ∷ []

abbrev thumb_of : String → Thumb
thumb_of path = if path == "/photos/b.jpg" then made (1 ∷ 2 ∷ []) else failed

abbrev read_address : String → Option ℕ
read_address s = elim (codec.atoi s) [
  | none ↦ none
  | some (pos n) ↦ some n
  | some (negsuc n) ↦ none
]

second_shown :
    group_thumbnail ℕ read_address false files same_files thumb_of (codec.itoa (pos 2))
    ≡ jpeg (1 ∷ 2 ∷ [])
unfolding group_thumbnail
second_shown = refl
