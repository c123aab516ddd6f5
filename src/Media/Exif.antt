-- ===== src/Media/Exif.antt =====
-- ExtractImageMeta (internal/media/exif.go). The EXIF library and image.DecodeConfig are the interface Exif;
-- the texts that fmt makes of numbers, and math.Round, are Formats.
use Prim.Native.String as Str
use ditto.Prelude.{
  ℕ, List, Option, none, some, Bool, String, ℤ, pos, negsuc, if◌then◌else◌, nat_beq, is_zero, ◌==◌,
  string_key,
}
use ditto.Disk.{Disk, Faults}
use ditto.Scan.Handlers.{Floats}

-- The fields that are read.
pub data Field : Type 0 where
  make model lens_make lens_model software artist copyright flash orientation white_balance : Field
  iso_speed_ratings f_number exposure_time focal_length gps_altitude : Field

-- What the libraries read of a content: the size that the header of an image tells, and the EXIF data with
-- the values of its fields as a text, a number and a fraction.
pub record Exif (Float : Type 0) : Type 1 where
  pub Doc : Type 0
  pub decode_config : List ℕ → Option (ℕ × ℕ)
  pub decode : List ℕ → Option Doc
  pub string_val : Doc → Field → Option String
  pub int_val : Doc → Field → Option ℤ
  pub rat2 : Doc → Field → Option (ℤ × ℤ)
  pub date_time : Doc → Option ℕ
  pub lat_long : Doc → Option (Float × Float)

-- Sprintf of %d, of %.1f and of %.0f, float64(n), and math.Round.
pub record Formats (F : Floats) : Type 0 where
  pub show_int : ℤ → String
  pub one_decimal : F.Float → String
  pub no_decimals : F.Float → String
  pub of_signed : ℤ → F.Float
  pub round : F.Float → F.Float

pub record ImageMeta (Float : Type 0) : Type 0 where
  pub width : ℕ
  pub height : ℕ
  pub taken_at : Option ℕ
  pub camera_make : String
  pub camera_model : String
  pub lens_make : String
  pub lens_model : String
  pub software : String
  pub artist : String
  pub copyright : String
  pub orientation : String
  pub iso : ℤ
  pub f_number : String
  pub exposure_time : String
  pub focal_length : String
  pub flash : String
  pub white_balance : String
  pub gps : Option (Float × Float)
  pub gps_altitude : Option Float

abbrev pub orientation_label : String → String
orientation_label v =
    if v == "1"
    then "Normal"
    else if v == "2"
    then "Mirrored horizontal"
    else if v == "3"
    then "Rotated 180°"
    else if v == "4"
    then "Mirrored vertical"
    else if v == "5"
    then "Mirrored horizontal, rotated 90° CCW"
    else if v == "6"
    then "Rotated 90° CW"
    else if v == "7"
    then "Mirrored horizontal, rotated 90° CW"
    else if v == "8"
    then "Rotated 90° CCW"
    else v

abbrev pub white_balance_label : String → String
white_balance_label v = if v == "0" then "Auto" else if v == "1" then "Manual" else v

-- `var meta ImageMeta`.
abbrev pub no_meta : (Float : Type 0) → ImageMeta Float
no_meta Float = record {
  width = 0;
  height = 0;
  taken_at = none;
  camera_make = "";
  camera_model = "";
  lens_make = "";
  lens_model = "";
  software = "";
  artist = "";
  copyright = "";
  orientation = "";
  iso = pos 0;
  f_number = "";
  exposure_time = "";
  focal_length = "";
  flash = "";
  white_balance = "";
  gps = none;
  gps_altitude = none;
}

module _ (F : Floats) (M : Formats F) (X : Exif F.Float) (trim_space : String → String) where
  open F use {Float, of_int, times, divided}
  open M use {show_int, one_decimal, no_decimals, of_signed, round}

  -- exifString.
  abbrev pub exif_string : X.Doc → Field → String
  exif_string x field = elim (X.string_val x field) [ none ↦ "" | some s ↦ trim_space s ]

  abbrev pub labelled : (String → String) → String → String
  labelled label v = if v == "" then "" else label v

  -- What is made of a fraction whose divisor is not 0.
  abbrev pub of_rat : {A : Type 0} → (ℤ → ℤ → A) → A → Option (ℤ × ℤ) → A
  of_rat text default none = default
  of_rat text default (some (num, den)) = if is_zero den then default else text num den

  abbrev pub quotient : ℤ → ℤ → Float
  quotient num den = divided (of_signed num) (of_signed den)

  abbrev pub is_one : ℤ → Bool
  is_one (pos n) = nat_beq n 1
  is_one (negsuc n) = nat_beq 0 1

  abbrev pub exposure_text : ℤ → ℤ → String
  exposure_text num den =
      if is_one num
      then Str.◌++◌ "1/" (Str.◌++◌ (show_int den) " s")
      else Str.◌++◌ (show_int num) (Str.◌++◌ "/" (Str.◌++◌ (show_int den) " s"))

  abbrev pub or_zero_int : Option ℤ → ℤ
  or_zero_int none = pos 0
  or_zero_int (some n) = n

  -- The EXIF fields, over the size.
  unfoldable pub with_exif : ImageMeta Float → X.Doc → ImageMeta Float
  with_exif m x = record m {
    camera_make = exif_string x make;
    camera_model = exif_string x model;
    lens_make = exif_string x lens_make;
    lens_model = exif_string x lens_model;
    software = exif_string x software;
    artist = exif_string x artist;
    copyright = exif_string x copyright;
    flash = exif_string x flash;
    orientation = labelled orientation_label (exif_string x orientation);
    white_balance = labelled white_balance_label (exif_string x white_balance);
    taken_at = X.date_time x;
    iso = or_zero_int (X.int_val x iso_speed_ratings);
    f_number =
        of_rat (λ num den. Str.◌++◌ "f/" (one_decimal (quotient num den))) "" (X.rat2 x f_number);
    exposure_time = of_rat exposure_text "" (X.rat2 x exposure_time);
    focal_length =
        of_rat (λ num den. Str.◌++◌ (no_decimals (quotient num den)) " mm") ""
          (X.rat2 x focal_length);
    gps = X.lat_long x;
    gps_altitude =
        of_rat
          (λ num den. some (divided (round (times (quotient num den) (of_int 10))) (of_int 10)))
          none (X.rat2 x gps_altitude);
  }

  abbrev pub sized : Option (ℕ × ℕ) → ImageMeta Float
  sized none = no_meta Float
  sized (some (w, h)) = record (no_meta Float) { width = w; height = h }

  -- ExtractImageMeta; `unseekable` says whether the file refuses to go back to its start.
  unfoldable pub extract_image_meta : Faults → (String → Bool) → Disk → String → ImageMeta Float
  extract_image_meta φ unseekable d path =
      if φ.open_file path then no_meta Float else elim (d path) [
        | none ↦ no_meta Float
        | some f ↦
            let m = sized (X.decode_config f.content) in
            if unseekable path
            then m
            else elim (X.decode f.content) [ none ↦ m | some x ↦ with_exif m x ]
      ]
