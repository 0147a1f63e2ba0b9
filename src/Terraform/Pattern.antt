-- ===== src/Terraform/Pattern.antt =====
-- The regular expression of `ModifyTerraformProviderVersion`, as Go's package `regexp` matches it: leftmost,
-- greedy, and trying the shorter choice only where the longer one fails.
pub mod Meaning
use kubernetes_kops_operator.Prelude.Text.{AllOf}
use kubernetes_kops_operator.Prelude.{
  ℕ, String, ◌<>◌, Bool, true, false, not, ◌&&◌, ◌||◌, Option, none, some, List, [], ◌∷◌, ◌++◌, ◌≡◌,
  ◌⊎◌, eqb, is_empty,
}
use Prim.Native.Char.{Char, code}

-- A character of a class, at most one, and any number of them.
pub data Piece : Type 0 where
  one maybe_one many : (ℕ → Bool) → Piece

-- The text of the pieces, and what the continuation makes of the rest.
abbrev pub Found : Type 0 → Type 0
Found R = Option (String × R)

abbrev pub cons_found : {R : Type 0} → Char → Found R → Found R
cons_found c none = none
cons_found c (some (g, r)) = some (String.◌∷◌ c g, r)

abbrev pub or_else : {A : Type 0} → Option A → Option A → Option A
or_else none b = b
or_else (some a) b = some a

abbrev pub with_none : {R : Type 0} → Option R → Found R
with_none none = none
with_none (some r) = some ("", r)

unfoldable pub match_many : {R : Type 0} → (ℕ → Bool) → (String → Found R) → String → Found R
match_many p k String.[] = k ""
match_many p k (String.◌∷◌ c s) = elim (p (code c)) [
  | true ↦ or_else (cons_found c (match_many p k s)) (k (String.◌∷◌ c s))
  | false ↦ k (String.◌∷◌ c s)
]

abbrev pub match_one : {R : Type 0} → (ℕ → Bool) → (String → Found R) → String → Found R
match_one p k String.[] = none
match_one p k (String.◌∷◌ c s) = elim (p (code c)) [ true ↦ cons_found c (k s) | false ↦ none ]

unfoldable pub match_pieces : {R : Type 0} → List Piece → (String → Option R) → String → Found R
unfolding match_many
match_pieces [] k s = with_none (k s)
match_pieces (one p ∷ ps) k s = match_one p (match_pieces ps k) s
match_pieces (maybe_one p ∷ ps) k s =
    or_else (match_one p (match_pieces ps k) s) (match_pieces ps k s)
match_pieces (many p ∷ ps) k s = match_many p (match_pieces ps k) s

-- The meaning of the pieces: the texts that they match, however they are found.
abbrev pub Matches : List Piece → String → Type 0
Matches [] g = g ≡ ""
Matches (one p ∷ ps) g =
    (c : Char) × (s : String) × (g ≡ String.◌∷◌ c s) × (p (code c) ≡ true) × Matches ps s
Matches (maybe_one p ∷ ps) g =
    ((c : Char) × (s : String) × (g ≡ String.◌∷◌ c s) × (p (code c) ≡ true) × Matches ps s)
    ⊎ Matches ps g
Matches (many p ∷ ps) g = (a : String) × (b : String) × (g ≡ a <> b) × AllOf p a × Matches ps b

abbrev pub literal : String → List Piece
literal String.[] = []
literal (String.◌∷◌ c s) = one (λ d. eqb d (code c)) ∷ literal s

abbrev pub is_re_space : ℕ → Bool
is_re_space c = eqb c 32 || eqb c 9 || eqb c 10 || eqb c 12 || eqb c 13

abbrev pub is_char : ℕ → ℕ → Bool
is_char c d = eqb d c

-- `aws\s*=\s*\{[^}]*"?version"?\s*=\s*`, the first group.
abbrev pub version_group : List Piece
version_group =
    literal "aws"
    ++ (many is_re_space
        ∷ one (is_char b'=')
        ∷ many is_re_space
        ∷ one (is_char b'{')
        ∷ many (λ d. not (eqb d b'}'))
        ∷ maybe_one (is_char 34)
        ∷ literal "version")
    ++ (maybe_one (is_char 34) ∷ many is_re_space ∷ one (is_char b'=') ∷ many is_re_space ∷ [])

-- `"[^"]*"`
abbrev pub quoted_text : List Piece
quoted_text = one (is_char 34) ∷ many (λ d. not (eqb d 34)) ∷ one (is_char 34) ∷ []

-- A match at the start of the text: the group, the quoted text, and the rest.
unfoldable pub match_version : String → Found (String × String)
unfolding match_pieces
match_version = match_pieces version_group (match_pieces quoted_text some)
