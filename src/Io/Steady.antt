-- ===== src/Io/Steady.antt =====
-- Actions that return no error, and what is known of their value.
use kubernetes_kops_operator.Prelude.{Bool, true, false, List, [], ◌∷◌}
use kubernetes_kops_operator.Io.{
  Error, Result, ok, err, panic, World, History, Io, continue, recover, pure, ask, emit, ◌>>=◌, try,
  choose, when, for_each, current_time,
}
use kubernetes_kops_operator.Outside.Call.{Call}

abbrev pub NoErr : {A : Type 0} → (A → Type 0) → Result A → Type 0
NoErr Q (ok a) = Q a
NoErr Q (err e) = ⊥
NoErr Q panic = Unit

-- Whatever the world answers, `m` returns a value with `Q`, or panics.
pub record Steady {A : Type 0} (Q : A → Type 0) (m : Io A) : Type 0 where
  pub at : (w : World) (h : History) → NoErr Q (m w h).0

module _ {A : Type 0} {Q : A → Type 0} where
  pub Steady-pure : (a : A) → Q a → Steady Q (pure a)
  unfolding pure
  Steady-pure a q = record { at = λ w h. q }

  pub Steady-ask : (f : World → A) → ((w : World) → Q (f w)) → Steady Q (ask f)
  unfolding ask
  Steady-ask f q = record { at = λ w h. q w }

  pub Steady-choose : (b : Bool) (m n : Io A) → Steady Q m → Steady Q n → Steady Q (choose b m n)
  Steady-choose true m n k l = k
  Steady-choose false m n k l = l

pub Steady-emit : (c : Call) → Steady (λ u. Unit) (emit c)
unfolding emit
Steady-emit c = record { at = λ w h. tt }

module _ {A B : Type 0} {R : B → Type 0} where
  continue-NoErr :
      {Q : A → Type 0} (f : A → Io B)
      → ((a : A) → Q a → Steady R (f a))
      → (r : Result A) (w : World) (h : History) → NoErr Q r
      → NoErr R (continue (r, h) w f).0
  continue-NoErr f k (ok a) w h q = (k a q).at w h
  continue-NoErr f k (err e) w h q = q
  continue-NoErr f k panic w h q = tt

  pub Steady-bind :
      {Q : A → Type 0} (m : Io A) (f : A → Io B)
      → Steady Q m
      → ((a : A) → Q a → Steady R (f a))
      → Steady R (m >>= f)
  unfolding ◌>>=◌
  Steady-bind m f k l = record { at = λ w h. continue-NoErr f l (m w h).0 w (m w h).1 (k.at w h) }

  recover-NoErr :
      (f : A → Io B) (g : Error → Io B)
      → ((a : A) → Steady R (f a))
      → ((e : Error) → Steady R (g e))
      → (r : Result A) (w : World) (h : History) → NoErr R (recover (r, h) w f g).0
  recover-NoErr f g k l (ok a) w h = (k a).at w h
  recover-NoErr f g k l (err e) w h = (l e).at w h
  recover-NoErr f g k l panic w h = tt

  -- An error that is handled.
  pub Steady-try :
      (m : Io A) (f : A → Io B) (g : Error → Io B)
      → ((a : A) → Steady R (f a))
      → ((e : Error) → Steady R (g e))
      → Steady R (try m f g)
  unfolding try
  Steady-try m f g k l = record { at = λ w h. recover-NoErr f g k l (m w h).0 w (m w h).1 }

-- `m` returns no error, with any value. `search handles_rules` walks a block.
abbrev pub Handles : {A : Type 0} → Io A → Type 0
Handles m = Steady (λ a. Unit {0}) m

module _ {A : Type 0} where
  pub Handles-pure : (a : A) → Handles (pure a)
  Handles-pure a = Steady-pure a tt

  pub Handles-choose : (b : Bool) (m n : Io A) → Handles m → Handles n → Handles (choose b m n)
  Handles-choose b m n k l = Steady-choose b m n k l

pub Handles-current_time : Handles current_time
unfolding current_time
Handles-current_time = record { at = λ w h. tt }

pub Handles-when : (b : Bool) (m : Io (Unit {0})) → Handles m → Handles (when b m)
Handles-when true m k = k
Handles-when false m k = Handles-pure tt

module _ {A B : Type 0} where
  pub Handles-bind :
      (m : Io A) (f : A → Io B) → Handles m → ((a : A) → Handles (f a)) → Handles (m >>= f)
  Handles-bind m f k l = Steady-bind m f k (λ a q. l a)

  pub Handles-try :
      (m : Io A) (f : A → Io B) (g : Error → Io B)
      → ((a : A) → Handles (f a))
      → ((e : Error) → Handles (g e))
      → Handles (try m f g)
  Handles-try m f g k l = Steady-try m f g k l

pub Handles-for_each :
    {A : Type 0} (xs : List A) (body : A → Io (Unit {0}))
    → ((a : A) → Handles (body a))
    → Handles (for_each xs body)
unfolding for_each
Handles-for_each [] body k = Handles-pure tt
Handles-for_each (a ∷ xs) body k =
    Handles-bind (body a) (λ _. for_each xs body) (k a) (λ _. Handles-for_each xs body k)

pub ruleset handles_rules = (
  Handles-pure, Handles-choose, Handles-current_time, Handles-when, Handles-bind, Handles-try,
  Handles-for_each, Steady-emit,
)
