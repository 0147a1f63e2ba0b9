-- ===== src/Controller/Lock.antt =====
-- The mutex of the reconciler. The kOps library keeps process-wide state (environment, feature flags,
-- cloud clients), so the state store and that state are touched under the lock alone, while terraform
-- applies and destroys outside of it.
use kubernetes_kops_operator.Prelude.{Bool, true, false, not, [], ◌∷◌, ◌≡◌, arith}
use kubernetes_kops_operator.Io.{History}
use kubernetes_kops_operator.Outside.Call.{Call}
use kubernetes_kops_operator.Outside.Effect.{Effect, Effects, effect}
use kubernetes_kops_operator.Controller.Keeps.{Invariant}

abbrev pub after : Call → Bool → Bool
after Call.mux_lock b = true
after Call.mux_unlock b = false
after _ b = b

-- Whether the lock is held after the calls of the history.
abbrev pub held : History → Bool
held [] = false
held (c ∷ h) = after c (held h)

-- Which effects are right while the lock is held, or not held.
abbrev pub allowed : Effect → Bool → Bool
allowed Effect.globals b = b
allowed Effect.kops_write b = b
allowed Effect.addons_write b = b
allowed Effect.kops_delete b = b
allowed Effect.tf_apply_run b = not b
allowed Effect.tf_destroy_run b = not b
allowed _ b = true

-- A lock is taken only while it is free, and freed only while it is held.
abbrev pub permitted : Call → Bool → Bool
permitted Call.mux_lock b = not b
permitted Call.mux_unlock b = b
permitted c b = allowed (effect c) b

-- Every call was right at its time.
abbrev pub Disciplined : History → Type 0
Disciplined [] = Unit
Disciplined (c ∷ h) = (permitted c (held h) ≡ true) × Disciplined h

abbrev pub locked_effects : Effects
locked_effects Effect.mutex = false
locked_effects Effect.tf_apply_run = false
locked_effects Effect.tf_destroy_run = false
locked_effects _ = true

abbrev pub free_effects : Effects
free_effects Effect.mutex = false
free_effects Effect.globals = false
free_effects Effect.kops_write = false
free_effects Effect.addons_write = false
free_effects Effect.kops_delete = false
free_effects _ = true

-- The lock is held, or free, as the flag says.
abbrev pub Holds : Bool → Invariant
Holds b v h = (v.should_unlock ≡ b) × (held h ≡ b) × Disciplined h

abbrev pub Settled : Invariant
Settled v h = (held h ≡ v.should_unlock) × Disciplined h

pub locked_call :
    (c : Call) (b : Bool)
    → locked_effects (effect c) ≡ true
    → (after c b ≡ b) × (permitted c true ≡ true)
locked_call Call.mux_lock b e = cc
locked_call _ b e = ground arith

pub free_call :
    (c : Call) (b : Bool)
    → free_effects (effect c) ≡ true
    → (after c b ≡ b) × (permitted c false ≡ true)
free_call Call.mux_lock b e = cc
free_call _ b e = ground arith
