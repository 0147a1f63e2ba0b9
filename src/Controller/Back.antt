-- ===== src/Controller/Back.antt =====
-- What the deferred function of `Reconcile` writes back, from what the body left.
use kubernetes_kops_operator.Prelude.{
  String, ◌<>◌, Bool, true, false, Option, none, some, ◌≡◌, refl,
}
use kubernetes_kops_operator.Api.{KopsControlPlane, KopsMachinePool}
use kubernetes_kops_operator.Api.Meta.{ObjectMeta}
use kubernetes_kops_operator.Api.Kops.{Cluster}
use kubernetes_kops_operator.Io.{Error, World, History}
use kubernetes_kops_operator.Io.Emits.{Extends, Extends-induction, same, more}
use kubernetes_kops_operator.Io.Adds.{
  Adds, none_yet, one_more, Adds-trans, Adds-induction, Only, only_rules,
}
use kubernetes_kops_operator.Io.Sure.{Since}
use kubernetes_kops_operator.Outside.Call.{Call}
use kubernetes_kops_operator.Outside.Effect.{Effect, Effects, effect}
use kubernetes_kops_operator.Controller.Body.{Reconciler, Vars, Body}
use kubernetes_kops_operator.Terraform.Files.{cleanup_terraform_directory}
use kubernetes_kops_operator.Controller.Keeps.{Keeps, any}
use kubernetes_kops_operator.Controller.Leads.{Leads, Leads-Keeps, Leads-end}
use kubernetes_kops_operator.Controller.Steps.{delete_cluster-Keeps}
use kubernetes_kops_operator.Controller.Whole.{body-Leads}
use kubernetes_kops_operator.Controller.Reach.{
  Past, Past-Closed, Reaches, lock-Past, unlock-Past, reconcile_cluster-Past,
}
use kubernetes_kops_operator.Controller.Deferred.{
  write_kmp, write_kcp, set_gauge, write_back, deferred,
}
use kubernetes_kops_operator.Controller.Reconcile.{body, start_vars, step_error, with_deferred}

-- Everything but the writes of the operator's own objects.
abbrev pub body_effects : Effects
body_effects Effect.kube_write = false
body_effects Effect.kube_status = false
body_effects _ = true

body_Reaches : (r : Reconciler) → Reaches body_effects r
body_Reaches r = record {
  observes = refl;
  reports = refl;
  waits = refl;
  sets = refl;
  files = refl;
  prepares = refl;
  addons = refl;
  locks = refl;
  plans = λ _. refl;
  applies = λ _. refl;
  secrets = λ _. refl;
  state = λ _. refl;
  deletes = λ _. refl;
}

-- The body writes neither machine pools nor control planes.
body-Past :
    (r : Reconciler) (owner : Cluster) (kcp : KopsControlPlane) (dir : String) (w : World)
    (h : History)
    → Extends body_effects h (body r owner dir w (start_vars kcp) h).2
body-Past r owner kcp dir w h =
    Leads-end {w = w}
      (body-Leads (Past-Closed body_effects h) refl refl (λ v j q. q) r owner dir kcp.meta
        (λ other m b cluster creds. leads (
          delete_cluster-Keeps (any (Past-Closed body_effects h)) refl refl refl
            (lock-Past (body_Reaches r) h) (unlock-Past (body_Reaches r) h) refl refl refl refl refl
            refl r cluster dir creds))
        (λ other m b cluster creds.
          leads (reconcile_cluster-Past (body_Reaches r) h owner cluster dir creds)))
      (start_vars kcp) h (refl, same)
  where
    leads :
        {m : Body (Unit {0})}
        → Keeps (Past body_effects h) m
        → Leads w (Past body_effects h) (Past body_effects h) (Past body_effects h) m
    leads {m} k = Leads-Keeps (λ v j q. q) m k

-- A control plane that is written has this metadata, and a status that is written is as ready as this.
abbrev pub Writes : ObjectMeta → Bool → Call → Type 0
Writes meta b (Call.update_kcp k) = k.meta ≡ meta
Writes meta b (Call.update_kcp_status k) = k.status.ready ≡ b
Writes meta b _ = Unit

module _ (meta : ObjectMeta) (b : Bool) where
  cleanup-Only : (dir : String) → Only (Writes meta b) (cleanup_terraform_directory dir)
  unfolding cleanup_terraform_directory
  cleanup-Only dir = search only_rules depth 10

  write_kmp-Only :
      (kcp : KopsControlPlane) (kmp : KopsMachinePool) → Only (Writes meta b) (write_kmp kcp kmp)
  unfolding write_kmp
  write_kmp-Only kcp kmp = search only_rules depth 12

  write_kcp-Only :
      (kcp : KopsControlPlane)
      → kcp.meta ≡ meta
      → kcp.status.ready ≡ b
      → Only (Writes meta b) (write_kcp kcp)
  unfolding write_kcp
  write_kcp-Only kcp m e = search only_rules depth 12

  gauge-Only :
      (name env : String) (failed : Option Error) → Only (Writes meta b) (set_gauge name env failed)
  gauge-Only name env none = search only_rules
  gauge-Only name env (some e) = search only_rules

  deferred-Only :
      (r : Reconciler) (owner : Cluster) (dir : String) (failed : Option Error) (v : Vars)
      → v.kcp.meta ≡ meta
      → v.kcp.status.ready ≡ b
      → Only (Writes meta b) (deferred r owner dir failed v)
  unfolding deferred write_back
  deferred-Only r owner dir failed v m e =
      search (only_rules, write_kmp-Only, write_kcp-Only, cleanup-Only, gauge-Only) depth 16

Adds-weaken :
    {G K : Call → Type 0} {h k : History} → ((c : Call) → G c → K c) → Adds G h k → Adds K h k
Adds-weaken {G} {K} {h} i a = Adds-induction (Adds K h) (λ c l g p. one_more c (i c g) p) a none_yet

Adds-Since : {G : Call → Type 0} {h k : History} → Adds G h k → Since h k
Adds-Since {h = h} a = Adds-induction (Since h) (λ c l g p. more c refl p) a same

-- What each call of a run is, seen from its end: the calls that the body may make, and those of the deferred
-- function from the variables that the body left.
pub with_deferred-Adds :
    (G : History → Call → Type 0) (r : Reconciler) (owner : Cluster) (kcp : KopsControlPlane)
    (w : World) (h : History)
    → ((l : History) (c : Call) → body_effects (effect c) ≡ true → G l c)
    → (let (step, u, j) = body r owner ("/tmp/" <> owner.meta.name) w (start_vars kcp) h in
        (l : History) → Since j l → (c : Call) → Writes u.kcp.meta u.kcp.status.ready c → G l c)
    → let (result, k) = with_deferred r owner kcp w h in Adds (G k) h k
unfolding with_deferred
with_deferred-Adds G r owner kcp w h quiet back =
    let dir = "/tmp/" <> owner.meta.name in
    let (step, u, j) = body r owner dir w (start_vars kcp) h in
    let written =
      (deferred-Only u.kcp.meta u.kcp.status.ready r owner dir (step_error step) u refl refl).at w
        j in
    let l : History = (deferred r owner dir (step_error step) u w j).1 in
    Adds-trans
      (Extends-induction body_effects (Adds (G l) h) (λ c k e q. one_more c (quiet l c e) q)
        (body-Past r owner kcp dir w h) none_yet)
      (Adds-weaken (back l (Adds-Since written)) written)
