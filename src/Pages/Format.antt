-- ===== src/Pages/Format.antt =====
-- The functions that the templates call (internal/api/pages.go, templateFuncs). Texts are lists of code
-- points, all of them ASCII; the digits of a quotient of floats are a parameter.
use ditto.Prelude.{
  ℕ, zero, suc, ◌+◌, ◌-◌, ◌*◌, ◌/◌, ◌%◌, ◌^◌, List, [], ◌∷◌, ◌++◌, Option, none, some, true, false,
  ltb, leb, nat_beq, length, take, drop, ℤ, pos, negsuc, if◌then◌else◌,
}
pub mod Digits
pub mod Grouped
pub mod Commas
pub mod Units

abbrev pub Text : Type 0
Text = List ℕ

-- strconv.FormatInt in base 10; a round of the fuel makes one digit.
unfoldable pub format_digits : ℕ → ℕ → Text
format_digits zero n = []
format_digits (suc fuel) n = elim (ltb n 10) [
  | true ↦ (b'0' + n) ∷ []
  | false ↦ format_digits fuel (n / 10) ++ (b'0' + n % 10) ∷ []
]

-- A number has no more digits than its value and one more.
abbrev pub format_nat : ℕ → Text
format_nat n = format_digits (n + 1) n

abbrev pub format_int : ℤ → Text
format_int (pos n) = format_nat n
format_int (negsuc n) = b'-' ∷ format_nat (n + 1)

-- insertCommas; every call but the last takes three characters off, so the length is fuel enough.
unfoldable pub insert_commas_in : ℕ → Text → Text
insert_commas_in zero s = s
insert_commas_in (suc fuel) s = elim (leb (length s) 3) [
  | true ↦ s
  | false ↦ insert_commas_in fuel (take (length s - 3) s) ++ b',' ∷ drop (length s - 3) s
]

abbrev pub insert_commas : Text → Text
insert_commas s = insert_commas_in (length s) s

-- commaN: a negative number's sign is put before the commas are.
unfoldable pub comma_n : ℤ → Text
comma_n (pos n) = insert_commas (format_int (pos n))
comma_n (negsuc n) = b'-' ∷ insert_commas (drop 1 (format_int (negsuc n)))

-- formatDuration, of seconds.
unfoldable pub format_duration : ℤ → Text
format_duration (negsuc n) = format_int (negsuc n) ++ b's' ∷ []
format_duration (pos secs) =
    if ltb secs 60
    then format_nat secs ++ b's' ∷ []
    else if ltb secs 3600
    then format_nat (secs / 60) ++ b'm' ∷ b' ' ∷ (format_nat (secs % 60) ++ b's' ∷ [])
    else format_nat (secs / 3600) ++ b'h' ∷ b' ' ∷ (format_nat (secs % 3600 / 60) ++ b'm' ∷ [])

-- msDuration. Go's quotient drops what is behind the point.
abbrev pub ms_duration : ℤ → Text
ms_duration (pos ms) = format_duration (pos (ms / 1000))
ms_duration (negsuc n) = format_duration (elim ((n + 1) / 1000) [ zero ↦ pos 0 | suc k ↦ negsuc k ])

-- pct, of numbers that are not negative; the product is a signed 64-bit integer, and does not overflow
-- below 2 ^ 63.
abbrev pub pct : ℕ → ℕ → ℕ
pct n total = if nat_beq total 0 then 0 else n * 100 / total

-- The loop of humanBytes: the divisor, which is a 64-bit integer, and the exponent. A round takes ten
-- bits off, so seven are fuel enough.
unfoldable pub unit_of : ℕ → ℕ → ℕ → ℕ → ℕ × ℕ
unit_of zero rem div exp = (div, exp)
unit_of (suc fuel) rem div exp = elim (leb 1024 rem) [
  | true ↦ unit_of fuel (rem / 1024) (div * 1024 % 2 ^ 64) (exp + 1)
  | false ↦ (div, exp)
]

-- "KMGTPE"[exp], which panics beyond its end.
abbrev pub letter : ℕ → Option ℕ
letter zero = some b'K'
letter (suc zero) = some b'M'
letter (suc (suc zero)) = some b'G'
letter (suc (suc (suc zero))) = some b'T'
letter (suc (suc (suc (suc zero)))) = some b'P'
letter (suc (suc (suc (suc (suc zero))))) = some b'E'
letter (suc (suc (suc (suc (suc (suc n)))))) = none

-- humanBytes: `one_decimal n d` is the quotient of the floats with one digit behind the point.
unfoldable pub human_bytes : (ℕ → ℕ → Text) → ℤ → Option Text
human_bytes one_decimal (negsuc n) = some (format_int (negsuc n) ++ b' ' ∷ b'B' ∷ [])
human_bytes one_decimal (pos n) =
    if ltb n 1024
    then some (format_nat n ++ b' ' ∷ b'B' ∷ [])
    else let (div, exp) = unit_of 7 (n / 1024) 1024 0 in
      elim (letter exp) [ none ↦ none | some c ↦ some (one_decimal n div ++ b' ' ∷ c ∷ b'B' ∷ []) ]
