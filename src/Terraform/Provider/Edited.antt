-- ===== src/Terraform/Provider/Edited.antt =====
-- What `ModifyTerraformProviderVersion` finds, and what it changes.
use kubernetes_kops_operator.Prelude.{
  ℕ, zero, suc, ◌-◌, String, ◌<>◌, Bool, not, none, some, eqb, ◌≡◌, refl, sym, ap, ◌∙◌, inl, inr,
  arith, Option-cases, Bool-cases,
}
use Prim.Native.Char.{Char, code}
use mathlib.Core.Path.{subst}
use text.Mathlib.TextLemmas.{nil-append, cons-append, append_assoc, tail-eq_of_cons-eq}
use kubernetes_kops_operator.Prelude.Text.{AllOf, AllOf-append}
use kubernetes_kops_operator.Terraform.Pattern.{
  match_pieces, match_version, version_group, quoted_text, Matches,
}
use kubernetes_kops_operator.Terraform.Pattern.Meaning.{pieces-Splits}
use kubernetes_kops_operator.Terraform.Provider.{
  text_length, behind, word, reference, expand, template, in_quotes, replace_versions,
}

-- The pattern at the start of a text.
abbrev pub Starts : String → String → String → String → Type 0
Starts s group quoted rest =
    (s ≡ group <> (quoted <> rest)) × Matches version_group group × Matches quoted_text quoted

-- The pattern somewhere in a text.
abbrev pub Occurs : String → Type 0
Occurs s =
    (before : String) × (group : String) × (quoted : String) × (rest : String) × (s
      ≡ before <> (group <> (quoted <> rest)))
    × Matches version_group group
    × Matches quoted_text quoted

match_version-Starts :
    (s group quoted rest : String)
    → match_version s ≡ some (group, (quoted, rest))
    → Starts s group quoted rest
unfolding match_version
match_version-Starts s g q b e =
    let (m, t, s', e') = pieces-Splits version_group (match_pieces quoted_text some) s g (q, b) e in
    let (n, u, t', e'') = pieces-Splits quoted_text some t q b e' in
    let same : u ≡ b = cc in (s' ∙ ap (λ x. g <> x) (t' ∙ ap (λ x. q <> x) same), m, n)

-- A text without a `$` is its own expansion.
abbrev pub Plain : String → Type 0
Plain s = AllOf (λ d. not (eqb d b'$')) s

module _ (is_letter : ℕ → Bool) (whole group : String) where
  expand-Plain : (s : String) → Plain s → expand is_letter whole group 0 s ≡ s
  unfolding expand
  expand-Plain String.[] p = refl
  expand-Plain (String.◌∷◌ c s) p = elim (Bool-cases (eqb (code c) b'$')) [
    | inl e ↦ let q = p.0 in absurd (ground arith)
    | inr e ↦ rw (e, expand) (ap (String.◌∷◌ c) (expand-Plain s p.1))
  ]

  expand-template :
      (version : String)
      → Plain (in_quotes version)
      → expand is_letter whole group 0 (template version) ≡ group <> in_quotes version
  unfolding expand reference word behind
  expand-template version p = ap (λ x. group <> x) (expand-Plain (in_quotes version) p)

in_quotes-Plain : (version : String) → Plain version → Plain (in_quotes version)
in_quotes-Plain version p = (refl, AllOf-append (λ d. not (eqb d b'$')) version "\"" p (refl, tt))

-- The second text is the first, but for some places where the pattern stands: there the quoted text is replaced.
pub data Edited (version : String) : String → String → Type 0 where
  at_end : Edited version "" ""
  keep :
      {s t : String} (c : Char)
      → Edited version s t
      → Edited version (String.◌∷◌ c s) (String.◌∷◌ c t)
  replaced :
      {s t x y : String} (group quoted : String)
      → Matches version_group group
      → Matches quoted_text quoted
      → x ≡ group <> (quoted <> s)
      → y ≡ group <> (in_quotes version <> t)
      → Edited version s t
      → Edited version x y

behind-text_length : (p r : String) → behind (text_length p) (p <> r) ≡ r
unfolding behind
behind-text_length String.[] r = nil-append r
behind-text_length (String.◌∷◌ c p) r = rw (cons-append c p r) (behind-text_length p r)

-- Behind a match, which is not empty, the search goes on where the match ends.
behind_match :
    (c : Char) (s g q r : String)
    → Starts (String.◌∷◌ c s) g q r
    → behind (text_length (g <> q) - 1) s ≡ r
behind_match c s g q r (e, (d, h, g', hd, rest), n) =
    let whole : g <> q ≡ String.◌∷◌ d (h <> q) = ap (λ x. x <> q) g' ∙ cons-append d h q in
    let split : String.◌∷◌ c s ≡ String.◌∷◌ d ((h <> q) <> r) =
      e ∙ sym (append_assoc g q r) ∙ ap (λ x. x <> r) whole ∙ cons-append d (h <> q) r in
    let tail : s ≡ (h <> q) <> r = tail-eq_of_cons-eq split in
    let count : text_length (g <> q) - 1 ≡ text_length (h <> q) =
      omega (arith, ap text_length whole) in
    rw (count, tail) (behind-text_length (h <> q) r)

module _ (is_letter : ℕ → Bool) (version : String) (plain : Plain version) where
  abbrev rewritten : ℕ → String → String
  rewritten = replace_versions is_letter version

  replaced_here :
      (c : Char) (s g q r : String)
      → match_version (String.◌∷◌ c s) ≡ some (g, (q, r))
      → Edited version
          (behind (text_length (g <> q) - 1) s)
          (rewritten (text_length (g <> q) - 1) s)
      → Edited version (String.◌∷◌ c s) (rewritten 0 (String.◌∷◌ c s))
  unfolding replace_versions
  replaced_here c s g q r e ih =
      let (x, m, n) = match_version-Starts (String.◌∷◌ c s) g q r e in
      let rest : Edited version r (rewritten (text_length (g <> q) - 1) s) =
        subst (λ t. Edited version t (rewritten (text_length (g <> q) - 1) s))
          (behind_match c s g q r (x, m, n)) ih in
      rw (e, replace_versions)
        (replaced g q m n x
          (ap (λ t. t <> rewritten (text_length (g <> q) - 1) s)
              (expand-template is_letter (g <> q) g version (in_quotes-Plain version plain))
            ∙ append_assoc g (in_quotes version) (rewritten (text_length (g <> q) - 1) s))
          rest)

  kept_here :
      (c : Char) (s : String)
      → match_version (String.◌∷◌ c s) ≡ none
      → Edited version s (rewritten 0 s)
      → Edited version (String.◌∷◌ c s) (rewritten 0 (String.◌∷◌ c s))
  unfolding replace_versions
  kept_here c s e ih = rw (e, replace_versions) (keep c ih)

  pub replace_versions-Edited : (n : ℕ) (s : String) → Edited version (behind n s) (rewritten n s)
  unfolding replace_versions behind
  replace_versions-Edited zero String.[] = at_end
  replace_versions-Edited (suc n) String.[] = at_end
  replace_versions-Edited (suc n) (String.◌∷◌ c s) = replace_versions-Edited n s
  replace_versions-Edited zero (String.◌∷◌ c s) =
      elim (Option-cases (match_version (String.◌∷◌ c s))) [
        | inl e ↦ kept_here c s e (replace_versions-Edited zero s)
        | inr ((g, (q, r)), e) ↦
            replaced_here c s g q r e (replace_versions-Edited (text_length (g <> q) - 1) s)
      ]
