-- ===== src/Pages/Format/Digits.antt =====
-- Numbers as strconv.FormatInt prints them, and how they are read back (internal/api/pages.go).
use ditto.Prelude.{
  ℕ, zero, suc, ◌+◌, ◌-◌, ◌*◌, ◌/◌, ◌%◌, ◌≤◌, ◌<◌, ◌≡◌, refl, [], ◌∷◌, ◌++◌, leb, ltb, nat_beq,
  ◌&&◌, length, ℤ, pos, negsuc, arith, inl, inr, Bool, true, false, Bool-cases, length-append,
  if◌then◌else◌,
}
use ditto.Pages.Format.{Text, format_digits}

abbrev pub is_digit : ℕ → Bool
is_digit c = leb b'0' c && leb c b'9'

abbrev pub all_digits : Text → Bool
all_digits [] = true
all_digits (c ∷ s) = is_digit c && all_digits s

pub all_digits-append :
    (s t : Text) → all_digits s ≡ true → all_digits t ≡ true → all_digits (s ++ t) ≡ true
all_digits-append [] t h k = k
all_digits-append (c ∷ s) t h k = ground (arith, all_digits-append s t)

-- The number that digits spell behind `n`.
abbrev pub read_behind : ℕ → Text → ℕ
read_behind n [] = n
read_behind n (c ∷ s) = read_behind (n * 10 + (c - b'0')) s

abbrev pub read_int : Text → ℤ
read_int [] = pos 0
read_int (c ∷ s) =
    if nat_beq c b'-' then negsuc (read_behind 0 s - 1) else pos (read_behind 0 (c ∷ s))

read_behind-append :
    (n : ℕ) (s : Text) (c : ℕ) → read_behind n (s ++ c ∷ []) ≡ read_behind n s * 10 + (c - b'0')
read_behind-append n [] c = refl
read_behind-append n (d ∷ s) c = read_behind-append (n * 10 + (d - b'0')) s c

format_digits_step :
    (fuel n : ℕ)
    → ltb n 10 ≡ false
    → format_digits (suc fuel) n ≡ format_digits fuel (n / 10) ++ (b'0' + n % 10) ∷ []
unfolding format_digits
format_digits_step fuel n f = ground arith

pub format_digits_lem :
    (fuel n : ℕ)
    → n < fuel
    → (all_digits (format_digits fuel n) ≡ true)
      × (read_behind 0 (format_digits fuel n) ≡ n)
      × (1 ≤ length (format_digits fuel n))
unfolding format_digits
format_digits_lem zero n h = absurd (omega arith)
format_digits_lem (suc fuel) n h = elim (Bool-cases (ltb n 10)) [
  | inl t ↦ ground arith
  | inr f ↦
      let (digits, value, some_digit) = format_digits_lem fuel (n / 10) (ground arith) in
      let rest = format_digits fuel (n / 10) in
      let c = b'0' + n % 10 in
      rw (format_digits_step fuel n f) (
        all_digits-append rest (c ∷ []) digits (ground arith),
        ground (arith, read_behind-append 0 rest c),
        ground (arith, length-append rest (c ∷ [])),
      )
]
