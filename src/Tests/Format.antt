-- ===== src/Tests/Format.antt =====
-- What the templates' functions (internal/api/pages.go) show of a few numbers.
use ditto.Prelude.{
  ℕ, ◌+◌, ◌^◌, ◌≤◌, ◌<◌, ◌≡◌, ◌⊎◌, refl, [], ◌∷◌, ◌++◌, some, true, pos, negsuc, arith,
}
use ditto.Pages.Format.{
  Text, format_digits, format_nat, format_int, insert_commas_in, comma_n, format_duration, unit_of,
  letter, human_bytes,
}
use ditto.Pages.Format.Digits.{read_int}
use ditto.Pages.Format.Commas.{without_commas, without_sign, comma_n_lem}
use ditto.Pages.Format.Grouped.{is_grouped}
use ditto.Pages.Format.Units.{human_bytes_lem}

minus_a_million :
    comma_n (negsuc 999_999)
    ≡ b'-' ∷ b'1' ∷ b',' ∷ b'0' ∷ b'0' ∷ b'0' ∷ b',' ∷ b'0' ∷ b'0' ∷ b'0' ∷ []
unfolding comma_n insert_commas_in format_digits
minus_a_million = refl

an_hour : format_duration (pos 3725) ≡ b'1' ∷ b'h' ∷ b' ' ∷ b'2' ∷ b'm' ∷ []
unfolding format_duration format_digits
an_hour = refl

comma_n_lem_example :
    (without_commas (comma_n (negsuc 999_999)) ≡ format_int (negsuc 999_999))
    × (read_int (without_commas (comma_n (negsuc 999_999))) ≡ negsuc 999_999)
    × (is_grouped (without_sign (comma_n (negsuc 999_999))) ≡ true)
comma_n_lem_example = comma_n_lem (negsuc 999_999)

-- The quotient is not shown.
abbrev no_digits : ℕ → ℕ → Text
no_digits n d = []

megabytes : human_bytes no_digits (pos 3_000_000) ≡ some (b' ' ∷ b'M' ∷ b'B' ∷ [])
unfolding human_bytes unit_of
megabytes = refl

human_bytes_lem_example :
    ((3_000_000 < 1024)
      × (human_bytes no_digits (pos 3_000_000) ≡ some (format_nat 3_000_000 ++ b' ' ∷ b'B' ∷ [])))
    ⊎ ((e : ℕ) × (c : ℕ) × (human_bytes no_digits (pos 3_000_000)
          ≡ some (no_digits 3_000_000 (1024 ^ (e + 1)) ++ b' ' ∷ c ∷ b'B' ∷ []))
        × (letter e ≡ some c)
        × (1024 ^ (e + 1) ≤ 3_000_000)
        × (3_000_000 < 1024 ^ (e + 2)))
human_bytes_lem_example = human_bytes_lem no_digits 3_000_000 (omega arith)
