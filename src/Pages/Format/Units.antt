-- ===== src/Pages/Format/Units.antt =====
-- What humanBytes (internal/api/pages.go) shows.
use ditto.Prelude.{
  ℕ, ◌+◌, ◌/◌, ◌^◌, ◌≤◌, ◌<◌, ◌≡◌, refl, [], ◌∷◌, ◌++◌, some, ltb, pos, arith, inl, inr, ◌⊎◌,
  Bool-cases,
}
use ditto.Pages.Format.{Text, unit_of, letter, human_bytes, format_nat}

unit_of_lem :
    (n : ℕ)
    → 1024 ≤ n
    → n < 2 ^ 63
    → (e : ℕ) × (c : ℕ) × (unit_of 7 (n / 1024) 1024 0 ≡ (1024 ^ (e + 1), e))
      × (letter e ≡ some c)
      × (1024 ^ (e + 1) ≤ n)
      × (n < 1024 ^ (e + 2))
unfolding unit_of
unit_of_lem n low high = elim (Bool-cases (ltb n (1024 ^ 2))) [
  | inl t ↦ (0, b'K', ground arith, refl, ground arith, ground arith)
  | inr f0 ↦ elim (Bool-cases (ltb n (1024 ^ 3))) [
    | inl t ↦ (1, b'M', ground arith, refl, ground arith, ground arith)
    | inr f1 ↦ elim (Bool-cases (ltb n (1024 ^ 4))) [
      | inl t ↦ (2, b'G', ground arith, refl, ground arith, ground arith)
      | inr f2 ↦ elim (Bool-cases (ltb n (1024 ^ 5))) [
        | inl t ↦ (3, b'T', ground arith, refl, ground arith, ground arith)
        | inr f3 ↦ elim (Bool-cases (ltb n (1024 ^ 6))) [
          | inl t ↦ (4, b'P', ground arith, refl, ground arith, ground arith)
          | inr f4 ↦ (5, b'E', ground arith, refl, ground arith, ground arith)
        ]
      ]
    ]
  ]
]

-- A size below 2 ^ 63 is shown in full if it is below 1024; else as its quotient by a power of 1024, with
-- the letter of that power, which there is: the power is at most the size, and 1024 times it is more.
pub human_bytes_lem :
    (one_decimal : ℕ → ℕ → Text) (n : ℕ)
    → n < 2 ^ 63
    → ((n < 1024) × (human_bytes one_decimal (pos n) ≡ some (format_nat n ++ b' ' ∷ b'B' ∷ [])))
      ⊎ ((e : ℕ) × (c : ℕ) × (human_bytes one_decimal (pos n)
            ≡ some (one_decimal n (1024 ^ (e + 1)) ++ b' ' ∷ c ∷ b'B' ∷ []))
          × (letter e ≡ some c)
          × (1024 ^ (e + 1) ≤ n)
          × (n < 1024 ^ (e + 2)))
unfolding human_bytes
human_bytes_lem one_decimal n high = elim (Bool-cases (ltb n 1024)) [
  | inl t ↦ inl (ground arith, ground arith)
  | inr f ↦
      let (e, c, unit, at, low, up) = unit_of_lem n (ground arith) high in
      inr (e, c, ground (arith, unit, at), at, low, up)
]
