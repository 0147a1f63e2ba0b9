-- ===== src/Terraform/Pattern/Meaning.antt =====
-- The backtracking matcher finds a match exactly if there is one.
use kubernetes_kops_operator.Prelude.{
  ℕ, String, ◌<>◌, Bool, true, false, Option, none, some, List, [], ◌∷◌, ◌≡◌, refl, sym, ap, ◌∙◌,
  ◌⊎◌, inl, inr,
}
use Prim.Native.Char.{Char, code}
use text.Mathlib.TextLemmas.{nil-append, cons-append, append_assoc}
use kubernetes_kops_operator.Prelude.Text.{AllOf}
use kubernetes_kops_operator.Terraform.Pattern.{
  Piece, one, maybe_one, many, Found, cons_found, or_else, with_none, match_many, match_one,
  match_pieces, Matches,
}

or_else-eq :
    {A : Type 0} (a b : Option A) (x : A) → or_else a b ≡ some x → (a ≡ some x) ⊎ (b ≡ some x)
or_else-eq none b x e = inr e
or_else-eq (some a) b x e = inl e

abbrev pub Succeeds : {A : Type 0} → Option A → Type 0
Succeeds {A} o = (x : A) × (o ≡ some x)

or_else-Succeeds : {A : Type 0} (a b : Option A) → Succeeds a ⊎ Succeeds b → Succeeds (or_else a b)
or_else-Succeeds none b (inl (x, e)) = cc
or_else-Succeeds none b (inr q) = q
or_else-Succeeds (some a) b q = (a, refl)

module _ {R : Type 0} where
  cons_found-eq :
      (c : Char) (f : Found R) (g : String) (r : R)
      → cons_found c f ≡ some (g, r)
      → (h : String) × (g ≡ String.◌∷◌ c h) × (f ≡ some (h, r))
  cons_found-eq c none g r e = cc
  cons_found-eq c (some (h, q)) g r e = (h, cc, cc)

  cons_found-Succeeds : (c : Char) (f : Found R) → Succeeds f → Succeeds (cons_found c f)
  cons_found-Succeeds c none (x, e) = cc
  cons_found-Succeeds c (some (h, q)) e = ((String.◌∷◌ c h, q), refl)

  with_none-eq :
      (o : Option R) (g : String) (r : R) → with_none o ≡ some (g, r) → (g ≡ "") × (o ≡ some r)
  with_none-eq none g r e = cc
  with_none-eq (some q) g r e = (cc, cc)

  with_none-Succeeds : (o : Option R) → Succeeds o → Succeeds (with_none o)
  with_none-Succeeds none (r, e) = cc
  with_none-Succeeds (some q) e = (("", q), refl)

  -- What a loop over a class has read: `a`, and then the continuation `b`.
  abbrev Read : (ℕ → Bool) → (String → Found R) → String → String → R → Type 0
  Read p k s g r =
      (a : String) × (b : String) × (t : String) × (g ≡ a <> b)
      × AllOf p a
      × (s ≡ a <> t)
      × (k t ≡ some (b, r))

  module _ (p : ℕ → Bool) (k : String → Found R) where
    longer :
        (c : Char) (s h g : String) (r : R)
        → p (code c) ≡ true
        → g ≡ String.◌∷◌ c h
        → Read p k s h r
        → Read p k (String.◌∷◌ c s) g r
    longer c s h g r q e (a, b, t, e', all, s', k') = (
      String.◌∷◌ c a,
      b,
      t,
      e ∙ ap (String.◌∷◌ c) e' ∙ sym (cons-append c a b),
      (q, all),
      ap (String.◌∷◌ c) s' ∙ sym (cons-append c a t),
      k',
    )

    shorter : (s g : String) (r : R) → k s ≡ some (g, r) → Read p k s g r
    shorter s g r e = ("", g, s, sym (nil-append g), tt, sym (nil-append s), e)

    module _ (c : Char) (s : String) (f : Found R) where
      -- The two choices at a character.
      abbrev choice : Bool → Found R
      choice true = or_else (cons_found c f) (k (String.◌∷◌ c s))
      choice false = k (String.◌∷◌ c s)

      choice-Read :
          (b : Bool) (g : String) (r : R)
          → p (code c) ≡ b
          → ((h : String) → f ≡ some (h, r) → Read p k s h r)
          → choice b ≡ some (g, r)
          → Read p k (String.◌∷◌ c s) g r
      choice-Read false g r q ih e = shorter _ g r e
      choice-Read true g r q ih e =
          elim (or_else-eq (cons_found c f) (k (String.◌∷◌ c s)) (g, r) e) [
            | inl e ↦ let (h, d, m) = cons_found-eq c f g r e in longer c s h g r q d (ih h m)
            | inr e ↦ shorter _ g r e
          ]

      choice-Succeeds : (b : Bool) → Succeeds (k (String.◌∷◌ c s)) → Succeeds (choice b)
      choice-Succeeds true q = or_else-Succeeds _ _ (inr q)
      choice-Succeeds false q = q

      further-Succeeds : (b : Bool) → b ≡ true → Succeeds f → Succeeds (choice b)
      further-Succeeds true e q = or_else-Succeeds _ _ (inl (cons_found-Succeeds c f q))
      further-Succeeds false e q = cc

    match_many-choice :
        (c : Char) (s : String)
        → match_many p k (String.◌∷◌ c s) ≡ choice c s (match_many p k s) (p (code c))
    unfolding match_many
    match_many-choice c s = by (p (code c))
      where
        by :
            (b : Bool)
            → (elim b [
              | true ↦ or_else (cons_found c (match_many p k s)) (k (String.◌∷◌ c s))
              | false ↦ k (String.◌∷◌ c s)
            ])
              ≡ choice c s (match_many p k s) b
        by true = refl
        by false = refl

    many-Read : (s g : String) (r : R) → match_many p k s ≡ some (g, r) → Read p k s g r
    unfolding match_many
    many-Read String.[] g r e = shorter "" g r e
    many-Read (String.◌∷◌ c s) g r e =
        choice-Read c s (match_many p k s) (p (code c)) g r refl (λ h. many-Read s h r)
          (sym (match_many-choice c s) ∙ e)

    many-Succeeds : (a t : String) → AllOf p a → Succeeds (k t) → Succeeds (match_many p k (a <> t))
    unfolding match_many
    many-Succeeds String.[] String.[] all q = rw (nil-append "") q
    many-Succeeds String.[] (String.◌∷◌ c t) all q =
        rw (nil-append (String.◌∷◌ c t), match_many-choice c t)
          (choice-Succeeds c t _ (p (code c)) q)
    many-Succeeds (String.◌∷◌ c a) t all q =
        rw (cons-append c a t, match_many-choice c (a <> t))
          (further-Succeeds c (a <> t) _ (p (code c)) all.0 (many-Succeeds a t all.1 q))

    -- One character, and then the continuation.
    abbrev ReadOne : String → String → R → Type 0
    ReadOne s g r =
        (c : Char) × (t : String) × (h : String) × (s ≡ String.◌∷◌ c t)
        × (g ≡ String.◌∷◌ c h)
        × (p (code c) ≡ true)
        × (k t ≡ some (h, r))

    one-ReadOne : (s g : String) (r : R) → match_one p k s ≡ some (g, r) → ReadOne s g r
    one-ReadOne String.[] g r e = cc
    one-ReadOne (String.◌∷◌ c s) g r e = by (p (code c)) refl e
      where
        by :
            (b : Bool)
            → p (code c) ≡ b
            → (elim b [ true ↦ cons_found c (k s) | false ↦ none ]) ≡ some (g, r)
            → ReadOne (String.◌∷◌ c s) g r
        by true q e = let (h, d, m) = cons_found-eq c (k s) g r e in (c, s, h, refl, d, q, m)
        by false q e = cc

    one-Succeeds :
        (c : Char) (s : String)
        → p (code c) ≡ true
        → Succeeds (k s)
        → Succeeds (match_one p k (String.◌∷◌ c s))
    one-Succeeds c s e q = by (p (code c)) e
      where
        by :
            (b : Bool)
            → b ≡ true
            → Succeeds (elim b as (λ x. Found R) [ true ↦ cons_found c (k s) | false ↦ none ])
        by true e = cons_found-Succeeds c (k s) q
        by false e = cc

  -- A match of the pieces splits the text: the part that matches them, and a rest that the continuation accepts.
  abbrev pub Splits : List Piece → (String → Option R) → String → String → R → Type 0
  Splits ps k s g r = Matches ps g × (t : String) × (s ≡ g <> t) × (k t ≡ some r)

  pub pieces-Splits :
      (ps : List Piece) (k : String → Option R) (s g : String) (r : R)
      → match_pieces ps k s ≡ some (g, r)
      → Splits ps k s g r
  unfolding match_pieces
  pieces-Splits [] k s g r e =
      let (d, m) = with_none-eq (k s) g r e in (d, s, sym (ap (λ x. x <> s) d ∙ nil-append s), m)
  pieces-Splits (one p ∷ ps) k s g r e =
      let (c, t, h, s', g', q, m) = one-ReadOne p (match_pieces ps k) s g r e in
      let (found, u, t', m') = pieces-Splits ps k t h r m in
      (
        (c, h, g', q, found),
        u,
        s' ∙ ap (String.◌∷◌ c) t' ∙ sym (cons-append c h u) ∙ ap (λ x. x <> u) (sym g'),
        m',
      )
  pieces-Splits (maybe_one p ∷ ps) k s g r e =
      elim (or_else-eq (match_one p (match_pieces ps k) s) (match_pieces ps k s) (g, r) e) [
        | inl e ↦
            let (c, t, h, s', g', q, m) = one-ReadOne p (match_pieces ps k) s g r e in
            let (found, u, t', m') = pieces-Splits ps k t h r m in
            (
              inl (c, h, g', q, found),
              u,
              s' ∙ ap (String.◌∷◌ c) t' ∙ sym (cons-append c h u) ∙ ap (λ x. x <> u) (sym g'),
              m',
            )
        | inr e ↦ let (found, u, t', m') = pieces-Splits ps k s g r e in (inr found, u, t', m')
      ]
  pieces-Splits (many p ∷ ps) k s g r e =
      let (a, b, t, g', all, s', m) = many-Read p (match_pieces ps k) s g r e in
      let (found, u, t', m') = pieces-Splits ps k t b r m in
      (
        (a, b, g', all, found),
        u,
        s' ∙ ap (λ x. a <> x) t' ∙ sym (append_assoc a b u) ∙ ap (λ x. x <> u) (sym g'),
        m',
      )

  pub pieces-Succeeds :
      (ps : List Piece) (k : String → Option R) (g t : String)
      → Matches ps g
      → Succeeds (k t)
      → Succeeds (match_pieces ps k (g <> t))
  unfolding match_pieces
  pieces-Succeeds [] k g t e q = rw (e, nil-append t) (with_none-Succeeds (k t) q)
  pieces-Succeeds (one p ∷ ps) k g t (c, s, e, m, rest) q =
      rw (e, cons-append c s t)
        (one-Succeeds p (match_pieces ps k) c (s <> t) m (pieces-Succeeds ps k s t rest q))
  pieces-Succeeds (maybe_one p ∷ ps) k g t (inl (c, s, e, m, rest)) q =
      or_else-Succeeds (match_one p (match_pieces ps k) (g <> t)) (match_pieces ps k (g <> t)) (
        inl (
          rw (e, cons-append c s t)
            (one-Succeeds p (match_pieces ps k) c (s <> t) m (pieces-Succeeds ps k s t rest q))))
  pieces-Succeeds (maybe_one p ∷ ps) k g t (inr rest) q =
      or_else-Succeeds _ _ (inr (pieces-Succeeds ps k g t rest q))
  pieces-Succeeds (many p ∷ ps) k g t (a, b, e, all, rest) q =
      rw (e, append_assoc a b t)
        (many-Succeeds p (match_pieces ps k) a (b <> t) all (pieces-Succeeds ps k b t rest q))
