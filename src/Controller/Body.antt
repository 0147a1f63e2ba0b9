-- ===== src/Controller/Body.antt =====
-- The body of `Reconcile` behind its deferred function: statements over the variables that the
-- deferred function sees, left by `return` or by a panic.
use kubernetes_kops_operator.Prelude.{String, Bool, true, false, Option, some, List, ◌∷◌}
use kubernetes_kops_operator.Api.{KopsControlPlane, KopsMachinePool}
use kubernetes_kops_operator.Api.Meta.{Condition}
use kubernetes_kops_operator.Io.{Error, Result, ok, err, panic, World, History, Io}
use kubernetes_kops_operator.Outside.Call.{Call}

-- The values that the reconciler returns: 1 minute, 20 minutes, 5 minutes, no requeue.
pub data CtrlResult : Type 0 where
  requeue_1min result_default result_error result_not_requeue : CtrlResult

-- The reconciler's settings. `ctx_kcp` is what a dry run finds in its context.
pub record Reconciler : Type 0 where
  pub controller_class : String
  pub cluster : String
  pub tf_exec_path : String
  pub dry_run : Bool
  pub aws_provider_version : String
  pub ctx_reader : Bool
  pub ctx_kcp : Option KopsControlPlane

pub record Vars : Type 0 where
  pub kcp : KopsControlPlane
  pub kmps : List KopsMachinePool
  pub should_unlock : Bool

pub data Step (A : Type 0) : Type 0 where
  next : A → Step A
  return : CtrlResult → Option Error → Step A
  crashed : Step A

abbrev pub Body : Type 0 → Type 0
Body A = World → Vars → History → Step A × Vars × History

module _ {A : Type 0} where
  unfoldable pub pure : A → Body A
  pure a w v h = (next a, v, h)

  unfoldable pub exit : CtrlResult → Option Error → Body A
  exit r e w v h = (return r e, v, h)

  unfoldable pub gets : (Vars → A) → Body A
  gets f w v h = (next (f v), v, h)

  unfoldable pub asks : (World → A) → Body A
  asks f w v h = (next (f w), v, h)

abbrev pub and_then :
    {A B : Type 0} → Step A × Vars × History → World → (A → Body B) → Step B × Vars × History
and_then (next a, v, h) w f = f a w v h
and_then (return r e, v, h) w f = (return r e, v, h)
and_then (crashed, v, h) w f = (crashed, v, h)

module _ {A B : Type 0} where
  infixl 5 ◌>>=◌ ◌>>◌
  unfoldable pub ◌>>=◌ : Body A → (A → Body B) → Body B
  ◌>>=◌ m f w v h = and_then (m w v h) w f

  abbrev pub ◌>>◌ : Body A → Body B → Body B
  m >> k = m >>= λ _. k

unfoldable pub modify : (Vars → Vars) → Body (Unit {0})
modify f w v h = (next tt, f v, h)

unfoldable pub modify_kcp : (World → KopsControlPlane → KopsControlPlane) → Body (Unit {0})
modify_kcp f w v h = (next tt, record v { kcp = f w v.kcp }, h)

unfoldable pub set_kmps : List KopsMachinePool → Body (Unit {0})
set_kmps kmps w v h = (next tt, record v { kmps = kmps }, h)

-- An event. Its message is the part of the text that varies.
unfoldable pub report : String → String → Body (Unit {0})
report reason message w v h = (next tt, v, Call.event reason message ∷ h)

-- A feature flag.
unfoldable pub parse_flags : String → Body (Unit {0})
parse_flags flags w v h = (next tt, v, Call.parse_flags flags ∷ h)

-- `Mux.Lock()` and `shouldUnlock = true`; `Mux.Unlock()` and `shouldUnlock = false`.
unfoldable pub lock : Body (Unit {0})
lock w v h = (next tt, record v { should_unlock = true }, Call.mux_lock ∷ h)

unfoldable pub unlock : Body (Unit {0})
unlock w v h = (next tt, record v { should_unlock = false }, Call.mux_unlock ∷ h)

abbrev pub handle :
    {A : Type 0} → Result A × History → World → Vars → (Error → Body A) → Step A × Vars × History
handle (ok a, h) w v g = (next a, v, h)
handle (err e, h) w v g = g e w v h
handle (panic, h) w v g = (crashed, v, h)

module _ {A : Type 0} where
  -- `a, err := m; if err != nil { g }`
  unfoldable pub run : Io A → (Error → Body A) → Body A
  run m g w v h = handle (m w h) w v g

  -- `if err != nil { return resultError, err }`
  abbrev pub checked : Io A → Body A
  checked m = run m (λ e. exit CtrlResult.result_error (some e))

  -- The same, with an event first.
  abbrev pub reported : String → Io A → Body A
  reported reason m = run m (λ e. report reason e.message >> exit CtrlResult.result_error (some e))

  abbrev pub choose : Bool → Body A → Body A → Body A
  choose true m n = m
  choose false m n = n

abbrev pub when : Bool → Body (Unit {0}) → Body (Unit {0})
when true m = m
when false m = pure tt

abbrev pub with_status_conditions : KopsControlPlane → List Condition → KopsControlPlane
with_status_conditions kcp conditions = record kcp {
  status = record kcp.status { conditions = conditions };
}

-- `conditions.MarkTrue`, `conditions.MarkFalse`
abbrev pub mark : Condition → Body (Unit {0})
mark c = modify_kcp (λ w kcp. with_status_conditions kcp (w.mark c kcp.status.conditions))

abbrev pub mark_true : String → Body (Unit {0})
mark_true kind =
    mark (record { kind = kind; is_true = true; reason = ""; severity = ""; message = "" })

abbrev pub mark_false : String → String → String → String → Body (Unit {0})
mark_false kind reason severity message = mark (record {
  kind = kind;
  is_true = false;
  reason = reason;
  severity = severity;
  message = message;
})
