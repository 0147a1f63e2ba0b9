-- ===== src/Io/Preserves.antt =====
-- Invariants of the history that an action keeps.
use kubernetes_kops_operator.Prelude.{true, ◌≡◌, ◌∷◌}
use kubernetes_kops_operator.Io.{Result, ok, err, panic, World, History, Io, continue, pure, ◌>>=◌}
use kubernetes_kops_operator.Io.Emits.{Emits, Extends-induction}
use kubernetes_kops_operator.Outside.Call.{Call}
use kubernetes_kops_operator.Outside.Effect.{Effects, effect}

abbrev pub Keeping : (History → Type 0) → Effects → Type 0
Keeping H C = (c : Call) (k : History) → C (effect c) ≡ true → H k → H (c ∷ k)

-- `m` keeps `H`.
pub record Preserves (H : History → Type 0) {A : Type 0} (m : Io A) : Type 0 where
  pub at : (w : World) (h : History) → H h → H (m w h).1

module _ {H : History → Type 0} {A : Type 0} where
  pub Preserves-Emits : (C : Effects) (m : Io A) → Keeping H C → Emits C m → Preserves H m
  Preserves-Emits C m step k = record { at = λ w h p. Extends-induction C H step (k.at w h) p }

  pub Preserves-pure : (a : A) → Preserves H (pure a)
  unfolding pure
  Preserves-pure a = record { at = λ w h p. p }

module _ {H : History → Type 0} {A B : Type 0} where
  continue-Preserves :
      (f : A → Io B)
      → ((a : A) → Preserves H (f a))
      → (r : Result A) (w : World) (h : History) → H h
      → H (continue (r, h) w f).1
  continue-Preserves f k (ok a) w h p = (k a).at w h p
  continue-Preserves f k (err e) w h p = p
  continue-Preserves f k panic w h p = p

  pub Preserves-bind :
      (m : Io A) (f : A → Io B)
      → Preserves H m
      → ((a : A) → Preserves H (f a))
      → Preserves H (m >>= f)
  unfolding ◌>>=◌
  Preserves-bind m f k l = record {
    at = λ w h p. continue-Preserves f l (m w h).0 w (m w h).1 (k.at w h p);
  }

  pub Preserves-after :
      (m : Io A) (f : A → Io B) (w : World) (h : History)
      → H (m w h).1
      → ((a : A) → Preserves H (f a))
      → H ((m >>= f) w h).1
  unfolding ◌>>=◌
  Preserves-after m f w h p k = continue-Preserves f k (m w h).0 w (m w h).1 p
