-- ===== src/Io/Adds.antt =====
-- Which calls an action adds to the history, with their arguments.
use kubernetes_kops_operator.Prelude.{
  Bool, true, false, Option, none, some, List, [], ◌∷◌, ◌≡◌, refl,
}
use kubernetes_kops_operator.Io.{
  Error, Result, ok, err, panic, World, History, Io, continue, recover, pure, fail, perform, act,
  emit, lift, current_time, ◌>>=◌, try, when, choose, for_each, maybe,
}
use kubernetes_kops_operator.Outside.Call.{Call}

-- `k` is `h` with more calls on top, each of them with `G`.
pub data Adds (G : Call → Type 0) (h : History) : History → Type 0 where
  none_yet : Adds G h h
  one_more : {k : History} (c : Call) → G c → Adds G h k → Adds G h (c ∷ k)

pub Adds-trans : {G : Call → Type 0} {h k l : History} → Adds G h k → Adds G k l → Adds G h l
Adds-trans p none_yet = p
Adds-trans p (one_more c g q) = one_more c g (Adds-trans p q)

pub Adds-induction :
    {G : Call → Type 0} {h k : History} (P : History → Type 0)
    → ((c : Call) (l : History) → G c → P l → P (c ∷ l))
    → Adds G h k
    → P h
    → P k
Adds-induction P step none_yet p = p
Adds-induction P step (one_more c g q) p = step c _ g (Adds-induction P step q p)

pub record Only (G : Call → Type 0) {A : Type 0} (m : Io A) : Type 0 where
  pub at : (w : World) (h : History) → Adds G h (m w h).1

module _ {G : Call → Type 0} {A : Type 0} where
  pub Only-pure : (a : A) → Only G (pure a)
  unfolding pure
  Only-pure a = record { at = λ w h. none_yet }

  pub Only-fail : (e : Error) → Only G (fail {A = A} e)
  unfolding fail
  Only-fail e = record { at = λ w h. none_yet }

  pub Only-lift : (r : Result A) → Only G (lift r)
  unfolding lift
  Only-lift r = record { at = λ w h. none_yet }

  pub Only-choose :
      (b : Bool) (m n : Io A)
      → (b ≡ true → Only G m)
      → (b ≡ false → Only G n)
      → Only G (choose b m n)
  Only-choose true m n k l = k refl
  Only-choose false m n k l = l refl

  pub Only-maybe :
      {B : Type 0} (o : Option B) (m : Io A) (f : B → Io A)
      → Only G m
      → ((b : B) → Only G (f b))
      → Only G (maybe o m f)
  Only-maybe none m f k l = k
  Only-maybe (some b) m f k l = l b

module _ {G : Call → Type 0} where
  pub Only-current_time : Only G current_time
  unfolding current_time
  Only-current_time = record { at = λ w h. none_yet }

  pub Only-perform : (c : Call) → G c → Only G (perform c)
  unfolding perform
  Only-perform c g = record { at = λ w h. one_more c g none_yet }

  pub Only-emit : (c : Call) → G c → Only G (emit c)
  unfolding emit
  Only-emit c g = record { at = λ w h. one_more c g none_yet }

  pub Only-when : (b : Bool) (m : Io (Unit {0})) → (b ≡ true → Only G m) → Only G (when b m)
  Only-when true m k = k refl
  Only-when false m k = Only-pure tt

module _ {G : Call → Type 0} {A B : Type 0} where
  continue-Adds :
      (f : A → Io B)
      → ((a : A) → Only G (f a))
      → (r : Result A) (w : World) (h : History) → Adds G h (continue (r, h) w f).1
  continue-Adds f k (ok a) w h = (k a).at w h
  continue-Adds f k (err e) w h = none_yet
  continue-Adds f k panic w h = none_yet

  pub Only-bind : (m : Io A) (f : A → Io B) → Only G m → ((a : A) → Only G (f a)) → Only G (m >>= f)
  unfolding ◌>>=◌
  Only-bind m f k l = record {
    at = λ w h. Adds-trans (k.at w h) (continue-Adds f l (m w h).0 w (m w h).1);
  }

  recover-Adds :
      (f : A → Io B) (g : Error → Io B)
      → ((a : A) → Only G (f a))
      → ((e : Error) → Only G (g e))
      → (r : Result A) (w : World) (h : History) → Adds G h (recover (r, h) w f g).1
  recover-Adds f g k l (ok a) w h = (k a).at w h
  recover-Adds f g k l (err e) w h = (l e).at w h
  recover-Adds f g k l panic w h = none_yet

  pub Only-try :
      (m : Io A) (f : A → Io B) (g : Error → Io B)
      → Only G m
      → ((a : A) → Only G (f a))
      → ((e : Error) → Only G (g e))
      → Only G (try m f g)
  unfolding try
  Only-try m f g k l n = record {
    at = λ w h. Adds-trans (k.at w h) (recover-Adds f g l n (m w h).0 w (m w h).1);
  }

module _ {G : Call → Type 0} where
  pub Only-act : (c : Call) → G c → Only G (act c)
  unfolding act
  Only-act c g = Only-bind (perform c) (λ _. pure tt) (Only-perform c g) (λ _. Only-pure tt)

  pub Only-for_each :
      {A : Type 0} (xs : List A) (body : A → Io (Unit {0}))
      → ((a : A) → Only G (body a))
      → Only G (for_each xs body)
  unfolding for_each
  Only-for_each [] body k = Only-pure tt
  Only-for_each (a ∷ xs) body k =
      Only-bind (body a) (λ _. for_each xs body) (k a) (λ _. Only-for_each xs body k)

pub ruleset only_rules = (
  Only-pure, Only-lift, Only-current_time, Only-fail, Only-choose, Only-maybe, Only-perform,
  Only-emit, Only-when, Only-bind, Only-try, Only-act, Only-for_each,
)
