-- ===== src/Io/Emits.antt =====
-- Which effects an action can have, whatever the world answers. One rule for each way to build an
-- action; `search emits_rules` walks a block.
use kubernetes_kops_operator.Prelude.{
  ◌≡◌, refl, Bool, true, false, Option, none, some, List, [], ◌∷◌,
}
use kubernetes_kops_operator.Io.{
  Error, Result, ok, err, panic, World, History, Io, current_time, continue, recover, pure, fail,
  crash, ask, perform, act, emit, ◌>>=◌, try, finally, when, lift, recovering, choose, maybe,
  for_each,
}
use kubernetes_kops_operator.Outside.Call.{Call}
use kubernetes_kops_operator.Outside.Effect.{Effect, Effects, effect}

-- `k` is `h` with more calls on top, each with an effect in `C`.
pub data Extends (C : Effects) (h : History) : History → Type 0 where
  same : Extends C h h
  more : {k : History} (c : Call) → C (effect c) ≡ true → Extends C h k → Extends C h (c ∷ k)

pub Extends-trans : {C : Effects} {h k l : History} → Extends C h k → Extends C k l → Extends C h l
Extends-trans p same = p
Extends-trans p (more c e q) = more c e (Extends-trans p q)

pub Extends-weaken :
    (C D : Effects)
    → ((x : Effect) → C x ≡ true → D x ≡ true)
    → {h k : History} → Extends C h k
    → Extends D h k
Extends-weaken C D i same = same
Extends-weaken C D i (more c e q) = more c (i (effect c) e) (Extends-weaken C D i q)

-- An invariant of the history that every call in `C` keeps is kept.
pub Extends-induction :
    (C : Effects) (P : History → Type 0)
    → ((c : Call) (k : History) → C (effect c) ≡ true → P k → P (c ∷ k))
    → {h k : History} → Extends C h k
    → P h
    → P k
Extends-induction C P step same p = p
Extends-induction C P step (more {k = k} c e q) p = step c k e (Extends-induction C P step q p)

-- Every call of `m` has an effect in `C`.
pub record Emits (C : Effects) {A : Type 0} (m : Io A) : Type 0 where
  pub at : (w : World) (h : History) → Extends C h (m w h).1

module _ {C : Effects} {A : Type 0} where
  pub Emits-pure : (a : A) → Emits C (pure a)
  unfolding pure
  Emits-pure a = record { at = λ w h. same }

  pub Emits-fail : (e : Error) → Emits C (fail {A = A} e)
  unfolding fail
  Emits-fail e = record { at = λ w h. same }

  pub Emits-crash : Emits C (crash {A = A})
  unfolding crash
  Emits-crash = record { at = λ w h. same }

  pub Emits-lift : (r : Result A) → Emits C (lift r)
  unfolding lift
  Emits-lift r = record { at = λ w h. same }

  pub Emits-recovering : (e : Error) (m : Io A) → Emits C m → Emits C (recovering e m)
  unfolding recovering
  Emits-recovering e m k = record { at = k.at }

  pub Emits-ask : (f : World → A) → Emits C (ask f)
  unfolding ask
  Emits-ask f = record { at = λ w h. same }

module _ {C : Effects} where
  pub Emits-current_time : Emits C current_time
  unfolding current_time
  Emits-current_time = record { at = λ w h. same }

  pub Emits-perform : (c : Call) → C (effect c) ≡ true → Emits C (perform c)
  unfolding perform
  Emits-perform c e = record { at = λ w h. more c e same }

  pub Emits-emit : (c : Call) → C (effect c) ≡ true → Emits C (emit c)
  unfolding emit
  Emits-emit c e = record { at = λ w h. more c e same }

  pub Emits-when : (b : Bool) (m : Io (Unit {0})) → (b ≡ true → Emits C m) → Emits C (when b m)
  Emits-when true m k = k refl
  Emits-when false m k = Emits-pure tt

module _ {C : Effects} {A : Type 0} where
  pub Emits-choose :
      (b : Bool) (m n : Io A)
      → (b ≡ true → Emits C m)
      → (b ≡ false → Emits C n)
      → Emits C (choose b m n)
  Emits-choose true m n k l = k refl
  Emits-choose false m n k l = l refl

module _ {C : Effects} {A B : Type 0} where
  pub Emits-maybe :
      (o : Option B) (n : Io A) (s : B → Io A)
      → Emits C n
      → ((b : B) → Emits C (s b))
      → Emits C (maybe o n s)
  Emits-maybe none n s k l = k
  Emits-maybe (some b) n s k l = l b

  continue-Extends :
      (f : A → Io B)
      → ((a : A) → Emits C (f a))
      → (r : Result A) (w : World) (h : History) → Extends C h (continue (r, h) w f).1
  continue-Extends f k (ok a) w h = (k a).at w h
  continue-Extends f k (err e) w h = same
  continue-Extends f k panic w h = same

  pub Emits-bind :
      (m : Io A) (f : A → Io B) → Emits C m → ((a : A) → Emits C (f a)) → Emits C (m >>= f)
  unfolding ◌>>=◌
  Emits-bind m f k l = record {
    at = λ w h. Extends-trans (k.at w h) (continue-Extends f l (m w h).0 w (m w h).1);
  }

  recover-Extends :
      (f : A → Io B) (g : Error → Io B)
      → ((a : A) → Emits C (f a))
      → ((e : Error) → Emits C (g e))
      → (r : Result A) (w : World) (h : History) → Extends C h (recover (r, h) w f g).1
  recover-Extends f g k l (ok a) w h = (k a).at w h
  recover-Extends f g k l (err e) w h = (l e).at w h
  recover-Extends f g k l panic w h = same

  pub Emits-try :
      (m : Io A) (f : A → Io B) (g : Error → Io B)
      → Emits C m
      → ((a : A) → Emits C (f a))
      → ((e : Error) → Emits C (g e))
      → Emits C (try m f g)
  unfolding try
  Emits-try m f g k l n = record {
    at = λ w h. Extends-trans (k.at w h) (recover-Extends f g l n (m w h).0 w (m w h).1);
  }

module _ {C : Effects} {A : Type 0} where
  pub Emits-finally :
      (m : Io A) (cleanup : Io (Unit {0}))
      → Emits C m
      → Emits C cleanup
      → Emits C (finally m cleanup)
  unfolding finally
  Emits-finally m cleanup k l = record { at = λ w h. Extends-trans (k.at w h) (l.at w (m w h).1) }

  pub Emits-for_each :
      (xs : List A) (body : A → Io (Unit {0}))
      → ((a : A) → Emits C (body a))
      → Emits C (for_each xs body)
  unfolding for_each
  Emits-for_each [] body k = Emits-pure tt
  Emits-for_each (a ∷ xs) body k =
      Emits-bind (body a) (λ _. for_each xs body) (k a) (λ _. Emits-for_each xs body k)

pub Emits-act : {C : Effects} (c : Call) → C (effect c) ≡ true → Emits C (act c)
unfolding act
Emits-act c e = Emits-bind (perform c) (λ _. pure tt) (Emits-perform c e) (λ _. Emits-pure tt)

pub Emits-weaken :
    (C D : Effects)
    → ((x : Effect) → C x ≡ true → D x ≡ true)
    → {A : Type 0} (m : Io A) → Emits C m
    → Emits D m
Emits-weaken C D i m k = record { at = λ w h. Extends-weaken C D i (k.at w h) }

pub ruleset emits_rules = (
  Emits-pure, Emits-fail, Emits-crash, Emits-ask, Emits-lift, Emits-current_time, Emits-recovering,
  Emits-perform, Emits-act, Emits-emit, Emits-when, Emits-choose, Emits-maybe, Emits-bind,
  Emits-try, Emits-finally, Emits-for_each,
)
