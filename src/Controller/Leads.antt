-- ===== src/Controller/Leads.antt =====
-- Bodies that move from one invariant to another, and leave early only under a third.
use kubernetes_kops_operator.Prelude.{Bool, true, false, Option, ◌≡◌, refl}
use kubernetes_kops_operator.Io.{Error, Result, ok, err, panic, World, History, Io}
use kubernetes_kops_operator.Controller.Body.{
  CtrlResult, Vars, Step, next, return, crashed, Body, exit, gets, handle, run, and_then, ◌>>=◌,
  choose,
}
use kubernetes_kops_operator.Controller.Keeps.{Invariant, Keeps}

-- `Q` where the body goes on, `E` where it returned or panicked.
abbrev pub Ends : {A : Type 0} → Invariant → Invariant → Step A × Vars × History → Type 0
Ends Q E (next a, v, h) = Q v h
Ends Q E (return r e, v, h) = E v h
Ends Q E (crashed, v, h) = E v h

pub record Leads (w : World) (P Q E : Invariant) {A : Type 0} (m : Body A) : Type 0 where
  pub at : (v : Vars) (h : History) → P v h → Ends Q E (m w v h)

module _ {P E : Invariant} (into : (v : Vars) (h : History) → P v h → E v h) where
  kept-Ends : {A : Type 0} (s : Step A) (v : Vars) (h : History) → P v h → Ends P E (s, v, h)
  kept-Ends (next a) v h p = p
  kept-Ends (return r e) v h p = into v h p
  kept-Ends crashed v h p = into v h p

module _ {w : World} {P E : Invariant} (into : (v : Vars) (h : History) → P v h → E v h) where
  pub Leads-Keeps : {A : Type 0} (m : Body A) → Keeps P m → Leads w P P E m
  Leads-Keeps m k = record {
    at = λ v h p. kept-Ends into (m w v h).0 (m w v h).1 (m w v h).2 (k.at w v h p);
  }

  pub Leads-exit :
      {A : Type 0} {Q : Invariant} (r : CtrlResult) (e : Option Error)
      → Leads w P Q E (exit {A = A} r e)
  unfolding exit
  Leads-exit r e = record { at = λ v h p. into v h p }

module _ (w : World) (R E : Invariant) {A B : Type 0} where
  bind-Ends :
      {Q : Invariant} (f : A → Body B)
      → ((a : A) → Leads w Q R E (f a))
      → (s : Step A) (v : Vars) (h : History) → Ends Q E (s, v, h)
      → Ends R E (and_then (s, v, h) w f)
  bind-Ends f k (next a) v h p = (k a).at v h p
  bind-Ends f k (return r e) v h p = p
  bind-Ends f k crashed v h p = p

module _ {w : World} {P Q R E : Invariant} {A B : Type 0} where
  pub Leads-bind :
      (m : Body A) (f : A → Body B)
      → Leads w P Q E m
      → ((a : A) → Leads w Q R E (f a))
      → Leads w P R E (m >>= f)
  unfolding ◌>>=◌
  Leads-bind m f k l = record {
    at = λ v h p. bind-Ends w R E f l (m w v h).0 (m w v h).1 (m w v h).2 (k.at v h p);
  }

module _ {w : World} {P Q E : Invariant} {A : Type 0} where
  pub Leads-choose :
      (b : Bool) (m n : Body A)
      → (b ≡ true → Leads w P Q E m)
      → (b ≡ false → Leads w P Q E n)
      → Leads w P Q E (choose b m n)
  Leads-choose true m n k l = k refl
  Leads-choose false m n k l = l refl

-- What holds at the end of a body that is only left early.
ended :
    (E : Invariant) {A : Type 0} (s : Step A) (v : Vars) (h : History) → Ends E E (s, v, h) → E v h
ended E (next a) v h p = p
ended E (return r e) v h p = p
ended E crashed v h p = p

module _ {w : World} {P E : Invariant} {A : Type 0} where
  pub Leads-end :
      {m : Body A} → Leads w P E E m → (v : Vars) (h : History) → P v h → E (m w v h).1 (m w v h).2
  Leads-end {m} k v h p = ended E (m w v h).0 (m w v h).1 (m w v h).2 (k.at v h p)

pub Leads-given :
    {w : World} {P R E S : Invariant} {A : Type 0} {m : Body A}
    → ((v : Vars) (h : History) → P v h → S v h)
    → Leads w S R E m
    → Leads w P R E m
Leads-given i k = record { at = λ v h p. k.at v h (i v h p) }

Ends-weaken :
    {A : Type 0} {Q R : Invariant} (E : Invariant)
    → ((v : Vars) (h : History) → Q v h → R v h)
    → (s : Step A) (v : Vars) (h : History) → Ends Q E (s, v, h)
    → Ends R E (s, v, h)
Ends-weaken E i (next a) v h q = i v h q
Ends-weaken E i (return r e) v h q = q
Ends-weaken E i crashed v h q = q

pub Leads-weaken :
    {w : World} {P Q R E : Invariant} {A : Type 0} {m : Body A}
    → ((v : Vars) (h : History) → Q v h → R v h)
    → Leads w P Q E m
    → Leads w P R E m
Leads-weaken {w} {E = E} {m = m} i k = record {
  at = λ v h p. Ends-weaken E i (m w v h).0 (m w v h).1 (m w v h).2 (k.at v h p);
}

-- Behind `gets` the value read is known.
pub Leads-gets :
    {w : World} {P R E : Invariant} {A B : Type 0} (f : Vars → A) (k : A → Body B)
    → ((a : A) → Leads w (λ v h. (f v ≡ a) × P v h) R E (k a))
    → Leads w P R E (gets f >>= k)
unfolding ◌>>=◌ gets
Leads-gets f k l = record { at = λ v h p. (l (f v)).at v h (refl, p) }

-- A fact that the invariant tells.
pub Leads-fact :
    {w : World} {P R E : Invariant} {F : Type 0} {A : Type 0} {m : Body A}
    → ((v : Vars) (h : History) → P v h → F)
    → (F → Leads w P R E m)
    → Leads w P R E m
Leads-fact i k = record { at = λ v h p. (k (i v h p)).at v h p }

-- What a procedure leaves behind: `Q` with success, `S` with an error or a panic.
abbrev pub Leaves : {A : Type 0} → Invariant → Invariant → Vars → Result A × History → Type 0
Leaves Q S v (ok a, k) = Q v k
Leaves Q S v (err e, k) = S v k
Leaves Q S v (panic, k) = S v k

module _ {w : World} {Q S E : Invariant} {A : Type 0} where
  handle-Ends :
      (g : Error → Body A)
      → ((e : Error) → Leads w S Q E (g e))
      → ((v : Vars) (h : History) → S v h → E v h)
      → (r : Result A) (v : Vars) (h : History) → Leaves Q S v (r, h)
      → Ends Q E (handle (r, h) w v g)
  handle-Ends g k i (ok a) v h q = q
  handle-Ends g k i (err e) v h s = (k e).at v h s
  handle-Ends g k i panic v h s = i v h s

  pub Leads-run :
      {P : Invariant} (m : Io A) (g : Error → Body A)
      → ((v : Vars) (h : History) → P v h → Leaves Q S v (m w h))
      → ((e : Error) → Leads w S Q E (g e))
      → ((v : Vars) (h : History) → S v h → E v h)
      → Leads w P Q E (run m g)
  unfolding run
  Leads-run m g l k i = record { at = λ v h p. handle-Ends g k i (m w h).0 v (m w h).1 (l v h p) }

-- The same, where the value is known with success.
abbrev pub LeavesValue :
    {A : Type 0} → (A → Invariant) → Invariant → Vars → Result A × History → Type 0
LeavesValue Q S v (ok a, k) = Q a v k
LeavesValue Q S v (err e, k) = S v k
LeavesValue Q S v (panic, k) = S v k

module _ {w : World} {S R E : Invariant} {A B : Type 0} {Q : A → Invariant} where
  value-Ends :
      (g : Error → Body A) (f : A → Body B)
      → ((e : Error) → Leads w S (λ v h. ⊥) E (g e))
      → ((v : Vars) (h : History) → S v h → E v h)
      → ((a : A) → Leads w (Q a) R E (f a))
      → (r : Result A) (v : Vars) (h : History) → LeavesValue Q S v (r, h)
      → Ends R E (and_then (handle (r, h) w v g) w f)
  value-Ends g f k i l (ok a) v h q = (l a).at v h q
  value-Ends g f k i l (err e) v h s =
      bind-Ends w R E {Q = λ u j. ⊥} f (λ a. record { at = λ u j p. absurd p }) (g e w v h).0
        (g e w v h).1 (g e w v h).2 ((k e).at v h s)
  value-Ends g f k i l panic v h s = i v h s

  pub Leads-value :
      {P : Invariant} (m : Io A) (g : Error → Body A) (f : A → Body B)
      → ((v : Vars) (h : History) → P v h → LeavesValue Q S v (m w h))
      → ((e : Error) → Leads w S (λ v h. ⊥) E (g e))
      → ((v : Vars) (h : History) → S v h → E v h)
      → ((a : A) → Leads w (Q a) R E (f a))
      → Leads w P R E (run m g >>= f)
  unfolding run ◌>>=◌
  Leads-value m g f q k i l = record {
    at = λ v h p. value-Ends g f k i l (m w h).0 v (m w h).1 (q v h p);
  }
