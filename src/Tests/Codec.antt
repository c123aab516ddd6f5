-- ===== src/Tests/Codec.antt =====
-- A way to write lists of paths, switches and numbers as texts, in the place of encoding/json and strconv:
-- each character of a list is marked, numbers are unary.
use Prim.Native.Char.{Char}
use Prim.Native.String as Str
use ditto.Prelude.{
  ℕ, zero, suc, ◌≡◌, refl, List, [], ◌∷◌, Option, none, some, Bool, true, false, String, ℤ, pos,
  negsuc, if◌then◌else◌, ◌==◌, string_key, ap, subst, ◌∙◌, Bool-cases, inl, inr,
}
use ditto.Settings.Defs.{Codec}

abbrev pub one_char : Char → String
one_char c = Str.◌∷◌ c ""

abbrev pub mark : String → String → String
mark Str.[] rest = Str.◌∷◌ "e" rest
mark (Str.◌∷◌ c s) rest = Str.◌∷◌ "x" (Str.◌∷◌ c (mark s rest))

abbrev pub mark_all : List String → String
mark_all [] = ""
mark_all (s ∷ ss) = mark s (mark_all ss)

abbrev pub onto_first : Char → List String → List String
onto_first c [] = []
onto_first c (s ∷ ss) = Str.◌∷◌ c s ∷ ss

abbrev pub unmark : String → List String
unmark Str.[] = []
unmark (Str.◌∷◌ a Str.[]) = "" ∷ []
unmark (Str.◌∷◌ a (Str.◌∷◌ b s)) =
    if one_char a == "x" then onto_first b (unmark s) else "" ∷ unmark (Str.◌∷◌ b s)

abbrev unmark-mark : (s rest : String) → unmark (mark s rest) ≡ s ∷ unmark rest
unmark-mark Str.[] Str.[] = refl
unmark-mark Str.[] (Str.◌∷◌ c rest) = refl
unmark-mark (Str.◌∷◌ c s) rest = ap (onto_first c) (unmark-mark s rest)

abbrev pub unmark-mark_all : (ss : List String) → unmark (mark_all ss) ≡ ss
unmark-mark_all [] = refl
unmark-mark_all (s ∷ ss) = unmark-mark s (mark_all ss) ∙ ap (◌∷◌ s) (unmark-mark_all ss)

abbrev read_list : String → Option (List String)
read_list Str.[] = none
read_list (Str.◌∷◌ c s) = some (unmark s)

abbrev print_bool : Bool → String
print_bool true = "true"
print_bool false = "false"

abbrev read_bool : String → Option Bool
read_bool s = if s == "true" then some true else if s == "false" then some false else none

abbrev read_bool-print_bool : (b : Bool) → read_bool (print_bool b) ≡ some b
read_bool-print_bool true = refl
read_bool-print_bool false = refl

abbrev print_ℕ : ℕ → String
print_ℕ zero = ""
print_ℕ (suc n) = Str.◌∷◌ "1" (print_ℕ n)

abbrev read_ℕ : String → ℕ
read_ℕ Str.[] = 0
read_ℕ (Str.◌∷◌ c s) = suc (read_ℕ s)

abbrev read-print : (n : ℕ) → read_ℕ (print_ℕ n) ≡ n
read-print zero = refl
read-print (suc n) = ap suc (read-print n)

abbrev print_ℤ : ℤ → String
print_ℤ (pos n) = Str.◌∷◌ "+" (print_ℕ n)
print_ℤ (negsuc n) = Str.◌∷◌ "-" (print_ℕ n)

abbrev read_ℤ : String → Option ℤ
read_ℤ Str.[] = none
read_ℤ (Str.◌∷◌ c s) = some (if one_char c == "+" then pos (read_ℕ s) else negsuc (read_ℕ s))

abbrev read_ℤ-print_ℤ : (n : ℤ) → read_ℤ (print_ℤ n) ≡ some n
read_ℤ-print_ℤ (pos n) = ap (λ m. some (pos m)) (read-print n)
read_ℤ-print_ℤ (negsuc n) = ap (λ m. some (negsuc m)) (read-print n)

abbrev is_cons : String → Bool
is_cons Str.[] = false
is_cons (Str.◌∷◌ c s) = true

abbrev IsTrue : Bool → Type 0
IsTrue true = Unit
IsTrue false = ⊥

abbrev true_ne_false : true ≡ false → ⊥
true_ne_false e = subst IsTrue e tt

abbrev cons-ne-empty : (c : Char) (s : String) → (Str.◌∷◌ c s == "") ≡ false
cons-ne-empty c s = elim (Bool-cases (Str.◌∷◌ c s == "")) [
  | inl e ↦ absurd (true_ne_false (ap is_cons ((string_key.same_iff (Str.◌∷◌ c s) "").0 e)))
  | inr e ↦ e
]

abbrev print_bool-ne-empty : (b : Bool) → (print_bool b == "") ≡ false
print_bool-ne-empty true = refl
print_bool-ne-empty false = refl

abbrev print_ℤ-ne-empty : (n : ℤ) → (print_ℤ n == "") ≡ false
print_ℤ-ne-empty (pos n) = cons-ne-empty "+" (print_ℕ n)
print_ℤ-ne-empty (negsuc n) = cons-ne-empty "-" (print_ℕ n)

abbrev pub codec : Codec
codec = record {
  marshal = λ ps. Str.◌∷◌ "[" (mark_all ps);
  unmarshal = read_list;
  format_bool = print_bool;
  parse_bool = read_bool;
  itoa = print_ℤ;
  atoi = read_ℤ;
  unmarshal-marshal = λ ps. ap (λ qs. some qs) (unmark-mark_all ps);
  parse_bool-format_bool = read_bool-print_bool;
  atoi-itoa = read_ℤ-print_ℤ;
  marshal-ne-empty = λ ps. cons-ne-empty "[" (mark_all ps);
  format_bool-ne-empty = print_bool-ne-empty;
  itoa-ne-empty = print_ℤ-ne-empty;
}
