-- ===== src/Controller/Keeps.antt =====
-- Invariants of bodies over their variables and the history of calls. One rule for each way to build
-- a body; `search keeps_rules` walks a block, with a lemma `Emits` for each procedure that it runs.
use kubernetes_kops_operator.Prelude.{String, Bool, true, false, Option, List, ◌∷◌, ◌≡◌, refl}
use kubernetes_kops_operator.Api.{KopsControlPlane, KopsMachinePool}
use kubernetes_kops_operator.Io.{Error, Result, ok, err, panic, World, History, Io}
use kubernetes_kops_operator.Io.Emits.{Emits, Extends-induction}
use kubernetes_kops_operator.Outside.Call.{Call}
use kubernetes_kops_operator.Outside.Effect.{Effect, Effects, effect}
use kubernetes_kops_operator.Controller.Body.{
  CtrlResult, Vars, Step, next, return, crashed, Body, pure, exit, gets, asks, and_then, ◌>>=◌,
  modify_kcp, set_kmps, report, parse_flags, handle, run, choose, when,
}

abbrev pub Invariant : Type 1
Invariant = Vars → History → Type 0

-- What a write to the control plane leaves as it was, from the old object and the new one.
abbrev pub Write : Type 1
Write = KopsControlPlane → KopsControlPlane → Type 0

abbrev pub Any : Write
Any old new = Unit

abbrev pub SameReady : Write
SameReady old new = new.status.ready ≡ old.status.ready

abbrev pub SameMeta : Write
SameMeta old new = new.meta ≡ old.meta

abbrev pub SameBoth : Write
SameBoth old new = SameReady old new × SameMeta old new

-- Calls with an effect in `C` keep `P`, and so do writes to the objects in the variables, those to the
-- control plane if they are in `W`.
pub record Stable (W : Write) (C : Effects) (P : Invariant) : Type 0 where
  pub calls : (v : Vars) (c : Call) (h : History) → C (effect c) ≡ true → P v h → P v (c ∷ h)
  pub writes_kcp :
      (v : Vars) (h : History) (kcp : KopsControlPlane)
      → W v.kcp kcp
      → P v h
      → P (record v { kcp = kcp }) h
  pub writes_kmps :
      (v : Vars) (h : History) (kmps : List KopsMachinePool)
      → P v h
      → P (record v { kmps = kmps }) h

pub Stable-narrow :
    {W V : Write} {C : Effects} {P : Invariant}
    → ((old new : KopsControlPlane) → V old new → W old new)
    → Stable W C P
    → Stable V C P
Stable-narrow i stable = record {
  calls = stable.calls;
  writes_kcp = λ v h kcp e p. stable.writes_kcp v h kcp (i v.kcp kcp e) p;
  writes_kmps = stable.writes_kmps;
}

abbrev pub Closed : Effects → Invariant → Type 0
Closed = Stable Any

abbrev pub Steady : Effects → Invariant → Type 0
Steady = Stable SameBoth

module _ {C : Effects} {P : Invariant} where
  pub ready_steady : Stable SameReady C P → Steady C P
  ready_steady = Stable-narrow (λ old new e. e.0)

  pub meta_steady : Stable SameMeta C P → Steady C P
  meta_steady = Stable-narrow (λ old new e. e.1)

pub any : {W : Write} {C : Effects} {P : Invariant} → Closed C P → Stable W C P
any = Stable-narrow (λ old new e. tt)

pub steady : {C : Effects} {P : Invariant} → Closed C P → Steady C P
steady = Stable-narrow (λ old new e. tt)

-- `m` keeps `P` on every way out.
pub record Keeps (P : Invariant) {A : Type 0} (m : Body A) : Type 0 where
  pub at : (w : World) (v : Vars) (h : History) → P v h → P (m w v h).1 (m w v h).2

module _ {P : Invariant} {A : Type 0} where
  pub Keeps-pure : (a : A) → Keeps P (pure a)
  unfolding pure
  Keeps-pure a = record { at = λ w v h p. p }

  pub Keeps-exit : (r : CtrlResult) (e : Option Error) → Keeps P (exit {A = A} r e)
  unfolding exit
  Keeps-exit r e = record { at = λ w v h p. p }

  pub Keeps-gets : (f : Vars → A) → Keeps P (gets f)
  unfolding gets
  Keeps-gets f = record { at = λ w v h p. p }

  pub Keeps-asks : (f : World → A) → Keeps P (asks f)
  unfolding asks
  Keeps-asks f = record { at = λ w v h p. p }

  pub Keeps-choose :
      (b : Bool) (m n : Body A)
      → (b ≡ true → Keeps P m)
      → (b ≡ false → Keeps P n)
      → Keeps P (choose b m n)
  Keeps-choose true m n k l = k refl
  Keeps-choose false m n k l = l refl

module _ {P : Invariant} where
  pub Keeps-when : (b : Bool) (m : Body (Unit {0})) → (b ≡ true → Keeps P m) → Keeps P (when b m)
  Keeps-when true m k = k refl
  Keeps-when false m k = Keeps-pure tt

module _ {P : Invariant} {C : Effects} {W : Write} (closed : Stable W C P) where
  pub Keeps-write_kcp :
      (f : World → KopsControlPlane → KopsControlPlane)
      → ((w : World) (k : KopsControlPlane) → W k (f w k))
      → Keeps P (modify_kcp f)
  unfolding modify_kcp
  Keeps-write_kcp f e = record { at = λ w v h p. closed.writes_kcp v h (f w v.kcp) (e w v.kcp) p }

module _ {P : Invariant} {C : Effects} (closed : Steady C P) where
  pub Keeps-modify_kcp :
      (f : World → KopsControlPlane → KopsControlPlane)
      → ((w : World) (k : KopsControlPlane) → SameBoth k (f w k))
      → Keeps P (modify_kcp f)
  Keeps-modify_kcp f e = Keeps-write_kcp closed f e

  pub Keeps-set_kmps : (kmps : List KopsMachinePool) → Keeps P (set_kmps kmps)
  unfolding set_kmps
  Keeps-set_kmps kmps = record { at = λ w v h p. closed.writes_kmps v h kmps p }

  pub Keeps-report :
      C Effect.report ≡ true → (reason message : String) → Keeps P (report reason message)
  unfolding report
  Keeps-report e reason message = record {
    at = λ w v h p. closed.calls v (Call.event reason message) h e p;
  }

  pub Keeps-parse_flags : C Effect.globals ≡ true → (flags : String) → Keeps P (parse_flags flags)
  unfolding parse_flags
  Keeps-parse_flags e flags = record {
    at = λ w v h p. closed.calls v (Call.parse_flags flags) h e p;
  }

module _ {P : Invariant} {A B : Type 0} where
  and_then-Keeps :
      (f : A → Body B)
      → ((a : A) → Keeps P (f a))
      → (s : Step A) (w : World) (v : Vars) (h : History) → P v h
      → P (and_then (s, v, h) w f).1 (and_then (s, v, h) w f).2
  and_then-Keeps f k (next a) w v h p = (k a).at w v h p
  and_then-Keeps f k (return r e) w v h p = p
  and_then-Keeps f k crashed w v h p = p

  pub Keeps-bind :
      (m : Body A) (f : A → Body B) → Keeps P m → ((a : A) → Keeps P (f a)) → Keeps P (m >>= f)
  unfolding ◌>>=◌
  Keeps-bind m f k l = record {
    at = λ w v h p. and_then-Keeps f l (m w v h).0 w (m w v h).1 (m w v h).2 (k.at w v h p);
  }

module _ {P : Invariant} {C : Effects} (closed : Steady C P) {A : Type 0} where
  handle-Keeps :
      (g : Error → Body A)
      → ((e : Error) → Keeps P (g e))
      → (r : Result A) (w : World) (v : Vars) (h : History) → P v h
      → P (handle (r, h) w v g).1 (handle (r, h) w v g).2
  handle-Keeps g k (ok a) w v h p = p
  handle-Keeps g k (err e) w v h p = (k e).at w v h p
  handle-Keeps g k panic w v h p = p

  pub Keeps-run :
      (m : Io A) (g : Error → Body A)
      → Emits C m
      → ((e : Error) → Keeps P (g e))
      → Keeps P (run m g)
  unfolding run
  Keeps-run m g k l = record {
    at = λ w v h p.
        handle-Keeps g l (m w h).0 w v (m w h).1
          (Extends-induction C (P v) (λ c j e q. closed.calls v c j e q) (k.at w h) p);
  }

pub ruleset keeps_rules = (
  Keeps-pure, Keeps-exit, Keeps-gets, Keeps-asks, Keeps-choose, Keeps-when, Keeps-modify_kcp,
  Keeps-set_kmps, Keeps-report, Keeps-parse_flags, Keeps-bind, Keeps-run,
)
