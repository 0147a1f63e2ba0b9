-- ===== src/Io/Sure.antt =====
-- What is sure when an action succeeds in a world, and that a call was made and answered with success.
use kubernetes_kops_operator.Prelude.{Bool, true, false, ◌∷◌, ◌≡◌, refl}
use kubernetes_kops_operator.Io.{
  Error, Result, ok, err, panic, World, History, Io, continue, recover, pure, fail, ask, act,
  perform, ◌>>=◌, try, wrapping, choose,
}
use kubernetes_kops_operator.Io.Count.{discard, act_run}
use kubernetes_kops_operator.Io.Emits.{
  Extends, Emits, same, more, Extends-trans, Extends-induction, Emits-act,
}
use kubernetes_kops_operator.Outside.Call.{Call, Reply}
use kubernetes_kops_operator.Outside.Effect.{Effects, effect}

abbrev pub all_effects : Effects
all_effects _ = true

-- Since `h` the call `c` was made, and answered with success.
pub data Done (w : World) (c : Call) (h : History) : History → Type 0 where
  here :
      {k : History} → Extends all_effects h k → discard (w.answer k c) ≡ ok tt → Done w c h (c ∷ k)
  later : {k : History} (x : Call) → Done w c h k → Done w c h (x ∷ k)

pub Done-Extends :
    {C : Effects} {w : World} {c : Call} {h k l : History}
    → Done w c h k
    → Extends C k l
    → Done w c h l
Done-Extends d same = d
Done-Extends d (more x e q) = later x (Done-Extends d q)

abbrev pub OnOk : {A : Type 0} → (A → History → Type 0) → Result A × History → Type 0
OnOk Q (ok a, k) = Q a k
OnOk Q (err e, k) = Unit
OnOk Q (panic, k) = Unit

-- From a history with `P`, success comes with `Q`.
pub record Sure (w : World) (P : History → Type 0) {A : Type 0} (Q : A → History → Type 0)
    (m : Io A) : Type 0 where
  pub at : (h : History) → P h → OnOk Q (m w h)

module _ {w : World} {P : History → Type 0} {A : Type 0} {Q : A → History → Type 0} where
  pub Sure-pure : (a : A) → ((h : History) → P h → Q a h) → Sure w P Q (pure a)
  unfolding pure
  Sure-pure a k = record { at = k }

  pub Sure-fail : (e : Error) → Sure w P Q (fail {A = A} e)
  unfolding fail
  Sure-fail e = record { at = λ h p. tt }

module _ {w : World} {A B : Type 0} {Q : A → History → Type 0} (R : B → History → Type 0) where
  continue-Sure :
      (f : A → Io B)
      → ((a : A) → Sure w (Q a) R (f a))
      → (r : Result A) (h : History) → OnOk Q (r, h)
      → OnOk R (continue (r, h) w f)
  continue-Sure f k (ok a) h q = (k a).at h q
  continue-Sure f k (err e) h q = tt
  continue-Sure f k panic h q = tt

  pub Sure-bind :
      {P : History → Type 0} (m : Io A) (f : A → Io B)
      → Sure w P Q m
      → ((a : A) → Sure w (Q a) R (f a))
      → Sure w P R (m >>= f)
  unfolding ◌>>=◌
  Sure-bind m f k l = record { at = λ h p. continue-Sure f l (m w h).0 (m w h).1 (k.at h p) }

  recover-Sure :
      {S : History → Type 0} (f : A → Io B) (g : Error → Io B)
      → ((a : A) → Sure w (Q a) R (f a))
      → ((e : Error) → Sure w S R (g e))
      → (r : Result A) (h : History) → OnOk Q (r, h)
      → S h
      → OnOk R (recover (r, h) w f g)
  recover-Sure f g k l (ok a) h q s = (k a).at h q
  recover-Sure f g k l (err e) h q s = (l e).at h s
  recover-Sure f g k l panic h q s = tt

  pub Sure-try :
      {P S : History → Type 0} (m : Io A) (f : A → Io B) (g : Error → Io B)
      → Sure w P Q m
      → ((h : History) → P h → S (m w h).1)
      → ((a : A) → Sure w (Q a) R (f a))
      → ((e : Error) → Sure w S R (g e))
      → Sure w P R (try m f g)
  unfolding try
  Sure-try {P} {S} m f g k s l n = record {
    at = λ h p. recover-Sure {S = S} f g l n (m w h).0 (m w h).1 (k.at h p) (s h p);
  }

abbrev pub Since : History → History → Type 0
Since h k = Extends all_effects h k

module _ {w : World} (h : History) where
  pub Sure-Emits : {A : Type 0} (m : Io A) → Emits all_effects m → Sure w (Since h) (λ _. Since h) m
  Sure-Emits m k = record { at = λ j p. go (m w j).0 (m w j).1 (Extends-trans p (k.at w j)) }
    where
      go :
          {A : Type 0} (r : Result A) (j : History)
          → Extends all_effects h j
          → OnOk (λ _. Since h) (r, j)
      go (ok a) j p = p
      go (err e) j p = tt
      go panic j p = tt

  pub Sure-act : (c : Call) → Sure w (Since h) (λ _. Done w c h) (act c)
  Sure-act c = record { at = λ k p. rw (act_run c w k) (go k p (discard (w.answer k c)) refl) }
    where
      go :
          (k : History)
          → Since h k
          → (r : Result (Unit {0})) → discard (w.answer k c) ≡ r
          → OnOk (λ _. Done w c h) (r, c ∷ k)
      go k p (ok _) e = here p e
      go k p (err x) e = tt
      go k p panic e = tt

-- The shapes of errors that are passed on.
pub Sure-wrapping :
    {w : World} {P : History → Type 0} {A : Type 0} {Q : A → History → Type 0} (g : Error → Error)
    (m : Io A)
    → Sure w P Q m
    → Sure w P Q (wrapping g m)
Sure-wrapping {w} {P} {A} {Q} g m k =
    Sure-try Q {S = λ h. Unit} m pure _ k (λ h p. tt) (λ a. Sure-pure a (λ h q. q))
      (λ e. Sure-fail (g e))

pub Sure-choose :
    {w : World} {P : History → Type 0} {A : Type 0} {Q : A → History → Type 0} (b : Bool)
    (m n : Io A)
    → Sure w P Q m
    → Sure w P Q n
    → Sure w P Q (choose b m n)
Sure-choose true m n k l = k
Sure-choose false m n k l = l

pub Sure-given :
    {w : World} {P S : History → Type 0} {A : Type 0} {Q : A → History → Type 0} {m : Io A}
    → ((h : History) → P h → S h)
    → Sure w S Q m
    → Sure w P Q m
Sure-given i k = record { at = λ h p. k.at h (i h p) }

pub Sure-weaken :
    {w : World} {P : History → Type 0} {A : Type 0} {Q R : A → History → Type 0} {m : Io A}
    → Sure w P Q m
    → ((a : A) (h : History) → Q a h → R a h)
    → Sure w P R m
Sure-weaken {w} {P} {A} {Q} {R} {m} k i = record { at = λ h p. go (m w h).0 (m w h).1 (k.at h p) }
  where
    go : (r : Result A) (h : History) → OnOk Q (r, h) → OnOk R (r, h)
    go (ok a) h q = i a h q
    go (err e) h q = tt
    go panic h q = tt

pub Sure-ask :
    {w : World} {P : History → Type 0} {A : Type 0} (f : World → A) → Sure w P (λ a. P) (ask f)
unfolding ask
Sure-ask f = record { at = λ h p. p }

-- What every call keeps stays.
pub Sure-kept :
    {C : Effects} {w : World} {P : History → Type 0} {A : Type 0} (m : Io A)
    → ((c : Call) (k : History) → C (effect c) ≡ true → P k → P (c ∷ k))
    → Emits C m
    → Sure w P (λ a. P) m
Sure-kept {C} {w} {P} m step k = record {
  at = λ h p. go (m w h).0 (m w h).1 (Extends-induction C P step (k.at w h) p);
}
  where
    go : {A : Type 0} (r : Result A) (h : History) → P h → OnOk (λ (a : A). P) (r, h)
    go (ok a) h p = p
    go (err e) h p = tt
    go panic h p = tt

pub Sure-and :
    {w : World} {P K : History → Type 0} {A : Type 0} {Q R : A → History → Type 0} {m : Io A}
    → Sure w P Q m
    → Sure w K R m
    → Sure w (λ h. P h × K h) (λ a h. Q a h × R a h) m
Sure-and {w} {P} {K} {A} {Q} {R} {m} k l = record {
  at = λ h p. go (m w h).0 (m w h).1 (k.at h p.0) (l.at h p.1);
}
  where
    go :
        (r : Result A) (h : History)
        → OnOk Q (r, h)
        → OnOk R (r, h)
        → OnOk (λ a h. Q a h × R a h) (r, h)
    go (ok a) h q s = (q, s)
    go (err e) h q s = tt
    go panic h q s = tt

-- A call with a value.
pub Sure-perform :
    {w : World} (h : History) (c : Call)
    → Sure w
        (Since h)
        (λ x k. Since h k × ((j : History) × Since h j × (w.answer j c ≡ ok x)))
        (perform c)
unfolding perform
Sure-perform {w} h c = record { at = λ k p. go k p (w.answer k c) refl }
  where
    go :
        (k : History)
        → Since h k
        → (r : Result (Reply c)) → w.answer k c ≡ r
        → OnOk (λ x l. Since h l × ((j : History) × Since h j × (w.answer j c ≡ ok x))) (r, c ∷ k)
    go k p (ok x) e = (more c refl p, (k, p, e))
    go k p (err x) e = tt
    go k p panic e = tt

pub Sure-decide :
    {w : World} {P : History → Type 0} {A : Type 0} {Q : A → History → Type 0} (b : Bool)
    (m n : Io A)
    → (b ≡ true → Sure w P Q m)
    → (b ≡ false → Sure w P Q n)
    → Sure w P Q (choose b m n)
Sure-decide true m n k l = k refl
Sure-decide false m n k l = l refl

pub Sure-Done :
    {w : World} (h : History) (c : Call)
    → Sure w (Since h) (λ _ k. Since h k × Done w c h k) (act c)
Sure-Done h c =
    Sure-given (λ k p. (p, p)) (Sure-and (Sure-Emits h (act c) (Emits-act c refl)) (Sure-act h c))
