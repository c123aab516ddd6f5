-- ===== src/Pages/Format/Grouped.antt =====
-- Where insertCommas (internal/api/pages.go) puts the commas.
use ditto.Prelude.{
  ℕ, zero, suc, ◌+◌, ◌-◌, ◌%◌, ◌≤◌, ◌≡◌, refl, [], ◌∷◌, ◌++◌, leb, ltb, nat_beq, not, ◌&&◌, ◌||◌,
  length, take, drop, arith, inl, inr, Bool, true, false, Bool-cases, take-append-drop,
  length-append, length-drop, if◌then◌else◌, ap,
}
use ditto.Pages.Format.Digits.{all_digits}
use ditto.Pages.Format.{Text, insert_commas_in}

abbrev pub is_comma : ℕ → Bool
is_comma c = nat_beq c b','

pub insert_commas_in_short :
    (fuel : ℕ) (s : Text) → leb (length s) 3 ≡ true → insert_commas_in (suc fuel) s ≡ s
unfolding insert_commas_in
insert_commas_in_short fuel s t = ground arith

pub insert_commas_in_long :
    (fuel : ℕ) (s : Text)
    → leb (length s) 3 ≡ false
    → insert_commas_in (suc fuel) s
      ≡ insert_commas_in fuel (take (length s - 3) s) ++ b',' ∷ drop (length s - 3) s
unfolding insert_commas_in
insert_commas_in_long fuel s f = ground arith

-- The number of characters that are not commas.
abbrev pub digits_in : Text → ℕ
digits_in [] = 0
digits_in (c ∷ s) = (if is_comma c then 0 else 1) + digits_in s

abbrev pub begins_comma : Text → Bool
begins_comma [] = false
begins_comma (c ∷ s) = is_comma c

-- What may follow a character: whether it is a comma, whether a comma comes next, and the digits that
-- follow.
pub fits : Bool → Bool → ℕ → Bool
fits true next n = not next && ltb 0 n
fits false true n = nat_beq (n % 3) 0 && ltb 0 n
fits false false n = not (nat_beq (n % 3) 0) || nat_beq n 0

-- Behind a digit stands a comma just where the digits that follow are three, or six, and so on; and
-- there are digits behind a comma.
unfoldable pub is_grouped : Text → Bool
unfolding fits
is_grouped [] = true
is_grouped (c ∷ s) = is_grouped s && fits (is_comma c) (begins_comma s) (digits_in s)

digits_in-append : (s t : Text) → digits_in (s ++ t) ≡ digits_in s + digits_in t
digits_in-append [] t = omega arith
digits_in-append (c ∷ s) t = ground (arith, digits_in-append s t)

digits_in_digits : (s : Text) → all_digits s ≡ true → digits_in s ≡ length s
digits_in_digits [] h = refl
digits_in_digits (c ∷ s) h = ground (arith, digits_in_digits s)

digits_in-insert_commas_in :
    (fuel : ℕ) (s : Text) → digits_in (insert_commas_in fuel s) ≡ digits_in s
unfolding insert_commas_in
digits_in-insert_commas_in zero s = refl
digits_in-insert_commas_in (suc fuel) s =
    let cut = length s - 3 in
    elim (Bool-cases (leb (length s) 3)) [
      | inl t ↦ rw (insert_commas_in_short fuel s t) refl
      | inr f ↦ rw (insert_commas_in_long fuel s f) (
          omega (
            arith,
            digits_in-append (insert_commas_in fuel (take cut s)) (b',' ∷ drop cut s),
            digits_in-insert_commas_in fuel (take cut s),
            digits_in-append (take cut s) (drop cut s),
            ap digits_in (take-append-drop cut s),
          ))
    ]

begins_comma-digits : (s : Text) → all_digits s ≡ true → begins_comma s ≡ false
begins_comma-digits [] h = refl
begins_comma-digits (c ∷ s) h = ground arith

-- No more than three digits have no comma.
is_grouped_short : (s : Text) → all_digits s ≡ true → length s ≤ 3 → is_grouped s ≡ true
unfolding is_grouped fits
is_grouped_short [] h short = refl
is_grouped_short (c ∷ s) h short =
    ground (arith, is_grouped_short s, begins_comma-digits s, digits_in_digits s)

-- Three digits more behind a comma.
fits_more : (c next : Bool) (n : ℕ) → 1 ≤ n → fits c next n ≡ true → fits c next (n + 3) ≡ true
unfolding fits
fits_more true next n h g = ground arith
fits_more false true n h g = ground arith
fits_more false false n h g = ground arith

is_grouped_last :
    (c : ℕ) (s : Text)
    → is_comma c ≡ false
    → begins_comma s ≡ true
    → digits_in s ≡ 3
    → is_grouped s ≡ true
    → is_grouped (c ∷ s) ≡ true
unfolding is_grouped fits
is_grouped_last c s digit next three g = rw (g, digit, next, three) refl

is_grouped_tail :
    (c : ℕ) (s : Text)
    → is_grouped (c ∷ s) ≡ true
    → (is_grouped s ≡ true) × (fits (is_comma c) (begins_comma s) (digits_in s) ≡ true)
unfolding is_grouped
is_grouped_tail c s g = ground arith

is_grouped_cons :
    (c : ℕ) (s : Text)
    → is_grouped s ≡ true
    → fits (is_comma c) (begins_comma s) (digits_in s) ≡ true
    → is_grouped (c ∷ s) ≡ true
unfolding is_grouped
is_grouped_cons c s g f = ground arith

-- Some digit is among those that a well-placed comma or digit stands before.
digits_in-is_grouped : (c : ℕ) (s : Text) → is_grouped (c ∷ s) ≡ true → 1 ≤ digits_in (c ∷ s)
unfolding is_grouped fits
digits_in-is_grouped c s g = elim (Bool-cases (is_comma c)) [
  | inl t ↦ ground arith
  | inr f ↦ ground arith
]

-- Three digits more behind a comma.
is_grouped-append :
    (s t : Text)
    → is_grouped s ≡ true
    → 1 ≤ digits_in s
    → begins_comma t ≡ true
    → digits_in t ≡ 3
    → is_grouped t ≡ true
    → is_grouped (s ++ t) ≡ true
is_grouped-append [] t g some_digit next three h = absurd (omega arith)
is_grouped-append (c ∷ []) t g some_digit next three h =
    is_grouped_last c t (ground arith) next three h
is_grouped-append (c ∷ d ∷ s) t g some_digit next three h =
    let (tail, here) = is_grouped_tail c (d ∷ s) g in
    let some_more = digits_in-is_grouped d s tail in
    let more : digits_in ((d ∷ s) ++ t) ≡ digits_in (d ∷ s) + 3 =
      omega (arith, digits_in-append (d ∷ s) t) in
    is_grouped_cons c ((d ∷ s) ++ t) (is_grouped-append (d ∷ s) t tail some_more next three h)
      (rw more (fits_more (is_comma c) (is_comma d) (digits_in (d ∷ s)) some_more here))

-- A comma and three digits.
is_grouped_comma :
    (t : Text)
    → all_digits t ≡ true
    → length t ≡ 3
    → (digits_in (b',' ∷ t) ≡ 3) × (is_grouped (b',' ∷ t) ≡ true)
unfolding fits
is_grouped_comma t h three =
    let n = digits_in_digits t h in
    (
      omega (arith, n),
      is_grouped_cons b',' t (is_grouped_short t h (omega arith))
          (ground (arith, n, begins_comma-digits t h)),
    )

all_digits-take : (n : ℕ) (s : Text) → all_digits s ≡ true → all_digits (take n s) ≡ true
all_digits-take zero s h = refl
all_digits-take (suc n) [] h = refl
all_digits-take (suc n) (c ∷ s) h = ground (arith, all_digits-take n s)

all_digits-drop : (n : ℕ) (s : Text) → all_digits s ≡ true → all_digits (drop n s) ≡ true
all_digits-drop zero s h = h
all_digits-drop (suc n) [] h = refl
all_digits-drop (suc n) (c ∷ s) h = ground (arith, all_digits-drop n s)

pub insert_commas_in-is_grouped :
    (fuel : ℕ) (s : Text)
    → all_digits s ≡ true
    → length s ≤ fuel
    → is_grouped (insert_commas_in fuel s) ≡ true
unfolding insert_commas_in is_grouped
insert_commas_in-is_grouped zero [] h enough = refl
insert_commas_in-is_grouped zero (c ∷ s) h enough = absurd (omega arith)
insert_commas_in-is_grouped (suc fuel) s h enough =
    let cut = length s - 3 in
    elim (Bool-cases (leb (length s) 3)) [
      | inl t ↦ rw (insert_commas_in_short fuel s t) (is_grouped_short s h (ground arith))
      | inr f ↦
          let head = all_digits-take cut s h in
          let right : length (drop cut s) ≡ 3 = ground (arith, length-drop cut s) in
          let left : length (take cut s) ≡ length s - 3 = omega (
            arith,
            right,
            length-append (take cut s) (drop cut s),
            ap length (take-append-drop cut s),
          ) in
          let (three, grouped) = is_grouped_comma (drop cut s) (all_digits-drop cut s h) right in
          rw (insert_commas_in_long fuel s f) (
            is_grouped-append (insert_commas_in fuel (take cut s)) (b',' ∷ drop cut s)
              (insert_commas_in-is_grouped fuel (take cut s) head (omega (arith, left)))
              (ground (
                arith,
                digits_in-insert_commas_in fuel (take cut s),
                digits_in_digits (take cut s) head,
                left,
              ))
              refl three grouped)
    ]
