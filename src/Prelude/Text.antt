-- ===== src/Prelude/Text.antt =====
-- The functions of Go's package `strings` that the source uses, over native texts. Only ASCII
-- separators and spaces occur.
use Prim.Native.Nat.{ℕ, zero, suc, ◌+◌, ◌*◌, ◌-◌, ◌/◌, ◌%◌}
use Prim.Native.Char.{Char, code}
use Prim.Native.String.{String, ◌++◌ as ◌<>◌}
use mathlib.Core.Bool.{Bool, true, false, not, ◌||◌, ◌&&◌}
use mathlib.Core.Path.{◌≡◌, refl}
use native.Mathlib.Omega.{arith}
use text.Mathlib.TextLemmas.{nil-append, cons-append}
use mathlib.Core.Logic.{inl, inr}
use mathlib.Core.Option.{Option, none, some}
use mathlib.Core.List.{List, [], ◌∷◌}
use text.Mathlib.Text.{starts_with}
use kubernetes_kops_operator.Prelude.Tests.{eqb, leb, ltb, if◌then◌else◌, Bool-cases}

-- The text before the first separator, and what follows it if there is one: `strings.Cut`.
abbrev cons_fst : Char → String × Option String → String × Option String
cons_fst c (s, r) = (String.◌∷◌ c s, r)

unfoldable pub cut : ℕ → String → String × Option String
cut sep String.[] = ("", none)
cut sep (String.◌∷◌ c s) = if eqb (code c) sep then ("", some s) else cons_fst c (cut sep s)

-- `strings.Split` by one character: never empty.
abbrev cons_head : Char → List String → List String
cons_head c [] = String.◌∷◌ c "" ∷ []
cons_head c (s ∷ r) = String.◌∷◌ c s ∷ r

unfoldable pub split : ℕ → String → List String
split sep String.[] = "" ∷ []
split sep (String.◌∷◌ c s) =
    let rest = split sep s in if eqb (code c) sep then "" ∷ rest else cons_head c rest

-- `strings.Contains`.
unfoldable pub contains_text : String → String → Bool
contains_text String.[] t = starts_with "" t
contains_text (String.◌∷◌ c s) t = starts_with (String.◌∷◌ c s) t || contains_text s t

-- The text before the last separator: `filepath.Dir` of a clean path, `s[:strings.LastIndex(s, sep)]`.
-- `none` where there is no separator.
unfoldable pub before_last : ℕ → String → Option String
before_last sep String.[] = none
before_last sep (String.◌∷◌ c s) = elim (before_last sep s) [
  | some t ↦ some (String.◌∷◌ c t)
  | none ↦ if eqb (code c) sep then some "" else none
]

-- `s[:len(s)-1]`, which panics on the empty text (`none`). The last character is ASCII.
unfoldable pub drop_last : String → Option String
drop_last String.[] = none
drop_last (String.◌∷◌ c s) = elim (drop_last s) [ none ↦ some "" | some t ↦ some (String.◌∷◌ c t) ]

abbrev pub is_digit : ℕ → Bool
is_digit c = leb b'0' c && leb c b'9'

-- A run of decimal digits, most significant first; `none` where another character stands.
unfoldable pub digits_from : ℕ → String → Option ℕ
digits_from acc String.[] = some acc
digits_from acc (String.◌∷◌ c s) =
    let rest = digits_from (acc * 10 + (code c - b'0')) s in
    if is_digit (code c) then rest else none

-- A decimal number: at least one digit.
unfoldable pub parse_decimal : String → Option ℕ
unfolding digits_from
parse_decimal String.[] = none
parse_decimal (String.◌∷◌ c s) = digits_from 0 (String.◌∷◌ c s)

abbrev digit_text : ℕ → String
digit_text n =
    if eqb n 0
    then "0"
    else if eqb n 1
    then "1"
    else if eqb n 2
    then "2"
    else if eqb n 3
    then "3"
    else if eqb n 4
    then "4"
    else if eqb n 5
    then "5"
    else if eqb n 6
    then "6"
    else if eqb n 7
    then "7"
    else if eqb n 8
    then "8"
    else "9"

-- The decimal text of a number, on fuel for its digits.
unfoldable pub show_digits : ℕ → ℕ → String
show_digits zero n = ""
show_digits (suc fuel) n =
    let more = show_digits fuel (n / 10) <> digit_text (n % 10) in
    if ltb n 10 then digit_text n else more

-- A number always has fewer digits than its successor's value.
unfoldable pub show_decimal : ℕ → String
unfolding show_digits
show_decimal n = show_digits (suc n) n

-- `strings.TrimSpace`, for ASCII spaces.
abbrev is_space : ℕ → Bool
is_space c = eqb c 32 || leb 9 c && leb c 13

unfoldable pub trim_left : String → String
trim_left String.[] = ""
trim_left (String.◌∷◌ c s) =
    let rest = trim_left s in if is_space (code c) then rest else String.◌∷◌ c s

unfoldable pub trim_right : String → String
trim_right String.[] = ""
trim_right (String.◌∷◌ c s) = elim (trim_right s) [
  | String.[] ↦ if is_space (code c) then "" else String.◌∷◌ c ""
  | String.◌∷◌ d t ↦ String.◌∷◌ c (String.◌∷◌ d t)
]

unfoldable pub trim_space : String → String
unfolding trim_left trim_right
trim_space s = trim_right (trim_left s)

-- `strings.HasSuffix(s, "%")`
unfoldable pub ends_with_percent : String → Bool
ends_with_percent String.[] = false
ends_with_percent (String.◌∷◌ c String.[]) = eqb (code c) b'%'
ends_with_percent (String.◌∷◌ c s) = ends_with_percent s

-- `%q`, for text without characters to escape.
abbrev pub quoted : String → String
quoted s = "\"" <> s <> "\""

-- A text of characters of a class.
abbrev pub AllOf : (ℕ → Bool) → String → Type 0
AllOf p String.[] = Unit
AllOf p (String.◌∷◌ c s) = (p (code c) ≡ true) × AllOf p s

pub AllOf-append : (p : ℕ → Bool) (s t : String) → AllOf p s → AllOf p t → AllOf p (s <> t)
AllOf-append p String.[] t a b = rw (nil-append t) b
AllOf-append p (String.◌∷◌ c s) t a b = rw (cons-append c s t) (a.0, AllOf-append p s t a.1 b)

module _ (sep : ℕ) where
  abbrev pub differs : ℕ → Bool
  differs d = not (eqb d sep)

  different : (d : ℕ) → differs d ≡ true → eqb d sep ≡ false
  different d e = ground arith

  -- The first separator is where it was put.
  pub cut-append :
      (s t : String) (c : Char)
      → code c ≡ sep
      → AllOf differs s
      → cut sep (s <> String.◌∷◌ c t) ≡ (s, some t)
  unfolding cut
  cut-append String.[] t c e a =
      rw (nil-append (String.◌∷◌ c t), e) (let q : eqb sep sep ≡ true = ground arith in rw q refl)
  cut-append (String.◌∷◌ d s) t c e a =
      rw (cons-append d s (String.◌∷◌ c t), different (code d) a.0, cut-append s t c e a.1) refl

  pub split-append :
      (s t : String) (c : Char)
      → code c ≡ sep
      → AllOf differs s
      → split sep (s <> String.◌∷◌ c t) ≡ s ∷ split sep t
  unfolding split
  split-append String.[] t c e a =
      rw (nil-append (String.◌∷◌ c t), e) (let q : eqb sep sep ≡ true = ground arith in rw q refl)
  split-append (String.◌∷◌ d s) t c e a =
      rw (cons-append d s (String.◌∷◌ c t), different (code d) a.0, split-append s t c e a.1) refl

  pub split-last : (s : String) → AllOf differs s → split sep s ≡ s ∷ []
  unfolding split
  split-last String.[] a = refl
  split-last (String.◌∷◌ d s) a = rw (different (code d) a.0, split-last s a.1) refl

pub AllOf-weaken :
    (p q : ℕ → Bool) (s : String) → ((c : ℕ) → p c ≡ true → q c ≡ true) → AllOf p s → AllOf q s
AllOf-weaken p q String.[] le a = tt
AllOf-weaken p q (String.◌∷◌ c s) le a = (le (code c) a.0, AllOf-weaken p q s le a.1)

-- The test that decides `AllOf`.
abbrev pub all_of : (ℕ → Bool) → String → Bool
all_of p String.[] = true
all_of p (String.◌∷◌ c s) = p (code c) && all_of p s

pub all_of-AllOf : (p : ℕ → Bool) (s : String) → all_of p s ≡ true → AllOf p s
all_of-AllOf p String.[] e = tt
all_of-AllOf p (String.◌∷◌ c s) e = elim (Bool-cases (p (code c))) [
  | inl y ↦ (y, all_of-AllOf p s (ground (arith, y, e)))
  | inr y ↦ absurd (ground (arith, y, e))
]
