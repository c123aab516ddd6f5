-- ===== src/Pages/Format/Commas.antt =====
-- What commaN (internal/api/pages.go) shows.
use ditto.Prelude.{
  ℕ, zero, suc, ◌+◌, ◌-◌, ◌≡◌, refl, [], ◌∷◌, ◌++◌, leb, nat_beq, not, keep, length, take, drop, ℤ,
  pos, negsuc, arith, inl, inr, true, Bool-cases, keep-append, take-append-drop, if◌then◌else◌, ap,
  sym, ◌∙◌,
}
use ditto.Pages.Format.Grouped.{
  is_comma, is_grouped, insert_commas_in_short, insert_commas_in_long, insert_commas_in-is_grouped,
}
use ditto.Pages.Format.Digits.{all_digits, read_behind, read_int, format_digits_lem}
use ditto.Pages.Format.{Text, format_nat, format_int, insert_commas_in, insert_commas, comma_n}

abbrev pub without_commas : Text → Text
without_commas = keep (λ c. not (is_comma c))

without_commas_digits : (s : Text) → all_digits s ≡ true → without_commas s ≡ s
without_commas_digits [] h = refl
without_commas_digits (c ∷ s) h = ground (arith, without_commas_digits s)

without_commas-insert_commas_in :
    (fuel : ℕ) (s : Text) → without_commas (insert_commas_in fuel s) ≡ without_commas s
unfolding insert_commas_in
without_commas-insert_commas_in zero s = refl
without_commas-insert_commas_in (suc fuel) s =
    let cut = length s - 3 in
    let q = λ (c : ℕ). not (is_comma c) in
    elim (Bool-cases (leb (length s) 3)) [
      | inl t ↦ rw (insert_commas_in_short fuel s t) refl
      | inr f ↦ rw (insert_commas_in_long fuel s f) (
          keep-append q (insert_commas_in fuel (take cut s)) (b',' ∷ drop cut s)
          ∙ ap (λ t. t ++ without_commas (drop cut s))
              (without_commas-insert_commas_in fuel (take cut s))
          ∙ sym (keep-append q (take cut s) (drop cut s))
          ∙ ap without_commas (take-append-drop cut s))
    ]

insert_commas_lem :
    (s : Text)
    → all_digits s ≡ true
    → (without_commas (insert_commas s) ≡ s) × (is_grouped (insert_commas s) ≡ true)
insert_commas_lem s h = (
  without_commas-insert_commas_in (length s) s ∙ without_commas_digits s h,
  insert_commas_in-is_grouped (length s) s h (omega arith),
)

read_int-digits : (s : Text) → all_digits s ≡ true → read_int s ≡ pos (read_behind 0 s)
read_int-digits [] h = refl
read_int-digits (c ∷ s) h = ground arith

abbrev pub without_sign : Text → Text
without_sign [] = []
without_sign (c ∷ s) = if nat_beq c b'-' then s else c ∷ s

without_sign-comma :
    (s : Text)
    → all_digits (without_commas s) ≡ true
    → is_grouped s ≡ true
    → is_grouped (without_sign s) ≡ true
unfolding is_grouped
without_sign-comma [] h g = refl
without_sign-comma (c ∷ s) h g = ground arith

-- Without its commas the text is the number in base 10, and is read as the number; behind its sign, a
-- comma stands behind a digit just where the digits that follow are three, or six, and so on.
pub comma_n_lem :
    (n : ℤ)
    → (without_commas (comma_n n) ≡ format_int n)
      × (read_int (without_commas (comma_n n)) ≡ n)
      × (is_grouped (without_sign (comma_n n)) ≡ true)
unfolding comma_n
comma_n_lem (pos n) =
    let (digits, value, _) = format_digits_lem (n + 1) n (omega arith) in
    let (plain, grouped) = insert_commas_lem (format_nat n) digits in
    (
      plain,
      ap read_int plain ∙ read_int-digits (format_nat n) digits ∙ ap pos value,
      without_sign-comma (insert_commas (format_nat n)) (ap all_digits plain ∙ digits) grouped,
    )
comma_n_lem (negsuc n) =
    let (digits, value, _) = format_digits_lem (n + 1 + 1) (n + 1) (omega arith) in
    let (plain, grouped) = insert_commas_lem (format_nat (n + 1)) digits in
    let less : read_behind 0 (format_nat (n + 1)) - 1 ≡ n = omega (arith, value) in
    (ap (◌∷◌ b'-') plain, ap (λ s. read_int (b'-' ∷ s)) plain ∙ ap negsuc less, grouped)
