-- ===== src/Terraform/Provider.antt =====
-- `ModifyTerraformProviderVersion`: the version of the AWS provider in the generated kubernetes.tf.
pub mod Edited
pub mod Versioned
use kubernetes_kops_operator.Prelude.{
  ℕ, zero, suc, ◌+◌, ◌-◌, String, ◌<>◌, Bool, true, false, not, ◌&&◌, ◌||◌, ◌==◌, Option, none,
  some, eqb, leb, ltb, if◌then◌else◌,
}
use Prim.Native.Char.{Char, code}
use kubernetes_kops_operator.Io.{
  Io, World, ask, fail, perform, act, ◌>>=◌, choose, wrap, wrapping, error,
}
use kubernetes_kops_operator.Outside.Call.{Call}
use kubernetes_kops_operator.Terraform.Pattern.{match_version}

-- `strings.Trim(s, "\"'")`
abbrev pub is_quote : ℕ → Bool
is_quote d = eqb d 34 || eqb d 39

unfoldable pub trim_quotes_left : String → String
trim_quotes_left String.[] = ""
trim_quotes_left (String.◌∷◌ c s) =
    let rest = trim_quotes_left s in if is_quote (code c) then rest else String.◌∷◌ c s

unfoldable pub trim_quotes_right : String → String
trim_quotes_right String.[] = ""
trim_quotes_right (String.◌∷◌ c s) = elim (trim_quotes_right s) [
  | String.[] ↦ if is_quote (code c) then "" else String.◌∷◌ c ""
  | String.◌∷◌ d t ↦ String.◌∷◌ c (String.◌∷◌ d t)
]

unfoldable pub trim_quotes : String → String
unfolding trim_quotes_left trim_quotes_right
trim_quotes s = trim_quotes_right (trim_quotes_left s)

abbrev pub text_length : String → ℕ
text_length String.[] = 0
text_length (String.◌∷◌ c s) = suc (text_length s)

-- `Regexp.expand`: the replacement is a template, in which `$` refers to a group. A letter beyond ASCII counts as
-- `unicode.IsLetter` and `unicode.IsDigit` say.
module _ (is_letter : ℕ → Bool) where
  abbrev pub is_word : ℕ → Bool
  is_word d =
      eqb d b'_'
      || leb b'0' d && leb d b'9'
      || leb b'a' d && leb d b'z'
      || leb b'A' d && leb d b'Z'
      || ltb 127 d && is_letter d

  unfoldable pub word : String → String
  word String.[] = ""
  word (String.◌∷◌ c s) = elim (is_word (code c)) [ true ↦ String.◌∷◌ c (word s) | false ↦ "" ]

-- The text behind so many characters.
unfoldable pub behind : ℕ → String → String
behind zero s = s
behind (suc n) String.[] = ""
behind (suc n) (String.◌∷◌ c s) = behind n s

abbrev pub starts_with_brace : ℕ → String → Bool
starts_with_brace d String.[] = false
starts_with_brace d (String.◌∷◌ c s) = eqb (code c) d

-- The groups of the pattern are the whole match and the first; any other name stands for nothing.
abbrev pub group_text : String → String → String → String
group_text whole group name = if name == "0" then whole else if name == "1" then group else ""

-- What stands behind a `$`: how many characters the reference takes, and its text.
module _ (is_letter : ℕ → Bool) (whole group : String) where
  unfoldable pub reference : String → ℕ × String
  unfolding word behind
  reference String.[] = (0, "$")
  reference (String.◌∷◌ c s) =
      let braced = word is_letter s in
      let plain = word is_letter (String.◌∷◌ c s) in
      if eqb (code c) b'$'
      then (1, "$")
      else if eqb (code c) b'{'
      then if not (braced == "") && starts_with_brace b'}' (behind (text_length braced) s)
        then (text_length braced + 2, group_text whole group braced)
        else (0, "$")
      else if plain == ""
      then (0, "$")
      else (text_length plain, group_text whole group plain)

  unfoldable pub expand : ℕ → String → String
  unfolding reference
  expand n String.[] = ""
  expand (suc n) (String.◌∷◌ c s) = expand n s
  expand zero (String.◌∷◌ c s) = elim (eqb (code c) b'$') [
    | true ↦ (reference s).1 <> expand (reference s).0 s
    | false ↦ String.◌∷◌ c (expand zero s)
  ]

-- `${1}"version"`
abbrev pub in_quotes : String → String
in_quotes version = String.◌∷◌ "\"" (version <> "\"")

abbrev pub template : String → String
template version =
    String.◌∷◌ "$" (String.◌∷◌ "{" (String.◌∷◌ "1" (String.◌∷◌ "}" (in_quotes version))))

-- `MatchString`
unfoldable pub has_version : String → Bool
unfolding match_version
has_version String.[] = false
has_version (String.◌∷◌ c s) = elim (match_version (String.◌∷◌ c s)) [
  | some m ↦ true
  | none ↦ has_version s
]

-- `ReplaceAllString`: each match is replaced, and the search goes on behind it. The number says how many
-- characters are still to skip.
module _ (is_letter : ℕ → Bool) (version : String) where
  unfoldable pub replace_versions : ℕ → String → String
  unfolding match_version expand
  replace_versions n String.[] = ""
  replace_versions (suc n) (String.◌∷◌ c s) = replace_versions n s
  replace_versions zero (String.◌∷◌ c s) = elim (match_version (String.◌∷◌ c s)) [
    | none ↦ String.◌∷◌ c (replace_versions zero s)
    | some (group, (quoted, rest)) ↦
        expand is_letter (group <> quoted) group 0 (template version)
        <> replace_versions (text_length (group <> quoted) - 1) s
  ]

unfoldable pub modify_terraform_provider_version : String → String → Io (Unit {0})
unfolding has_version replace_versions trim_quotes
modify_terraform_provider_version dir version = do
  let file = dir <> "/kubernetes.tf"
  content ← wrapping (wrap "failed to read kubernetes.tf") (perform (Call.read_file file))
  is_letter ← ask (λ w. w.is_letter)
  choose (not (has_version content))
      (fail (error "failed to find AWS provider version pattern in kubernetes.tf"))
      (wrapping (wrap "failed to write modified kubernetes.tf")
        (act (Call.write_file file (replace_versions is_letter (trim_quotes version) 0 content))))
