-- ===== src/Tests/Schedules.antt =====
-- Two workers on one reconciler.
use kubernetes_kops_operator.Prelude.{ℕ, suc, ◌≢◌, ◌⊎◌, ◌+◌, List, [], ◌∷◌, none, false, ◌≡◌, refl}
use kubernetes_kops_operator.Api.Meta.{ObjectKey}
use kubernetes_kops_operator.Io.{World, Result, ok, err, error}
use kubernetes_kops_operator.Outside.Call.{Call, Reply}
use kubernetes_kops_operator.Io.{◌>>=◌, try, act, for_each, current_time}
use kubernetes_kops_operator.Controller.Owner.{get_cluster_owner_ref, get_owner_by_ref}
use kubernetes_kops_operator.Utils.Objects.{get_aws_credentials}
use kubernetes_kops_operator.Controller.Delete.{report_protection, should_delete_cluster}
use kubernetes_kops_operator.Controller.Apply.{reconcile_cluster, add_finalizer}
use kubernetes_kops_operator.Kops.{get_kops_machine_pools_with_label}
use kubernetes_kops_operator.Utils.Cluster.{get_kops_clientset}
use kubernetes_kops_operator.Prelude.Text.{before_last}
use kubernetes_kops_operator.Terraform.Files.{cleanup_terraform_directory}
use kubernetes_kops_operator.Controller.Body
use kubernetes_kops_operator.Controller.Body.{Reconciler}
use kubernetes_kops_operator.Controller.Reconcile.{reconcile}
use kubernetes_kops_operator.Workers.{
  System, Turns, none_yet, one_more, start, total, Turn, moved, waits, fatal, finished, turn,
  pending,
}
use kubernetes_kops_operator.Workers.Exclusive.{Next, is_critical}
use kubernetes_kops_operator.Workers.Finishes.{Rest, Moves, Turns-finish}
use kubernetes_kops_operator.Tests.Data.{world, reconciler, key, pool_of}

-- The state store cannot be reached.
abbrev storeless : (c : Call) → Result (Reply c)
storeless (Call.kops_client b) = err (error "no store")
storeless (Call.list_kmps n c) = ok (pool_of none ∷ [])
storeless c = (world none).answer [] c

abbrev no_store : World
no_store = record (world none) { answer = λ h c. storeless c }

abbrev queues : List (List (ObjectKey × World))
queues = ((key, no_store) ∷ []) ∷ ((key, no_store) ∷ []) ∷ []

-- A schedule, as far as its turns move.
abbrev Reached : System → Type 0
Reached s = (n : ℕ) × (t : System) × Turns s n t

go_on :
    {s : System} {n : ℕ} (t : System) (i : ℕ) → Turns s n t → (x : Turn) → turn i t ≡ x → Reached s
go_on {n} t i p (moved u) e = (suc n, u, one_more i p e)
go_on {n} t i p waits e = (n, t, p)
go_on {n} t i p fatal e = (n, t, p)
go_on {n} t i p finished e = (n, t, p)

follow : {s : System} → List ℕ → Reached s → Reached s
unfolding go_on turn
follow [] x = x
follow (i ∷ l) x = follow l (go_on x.1 i x.2 (turn i x.1) refl)

-- The first worker has taken the mutex and makes its next call, and the second is where it wants the mutex.
unfoldable contended : Reached (start (reconciler false) queues)
unfolding follow turn start reconcile ◌>>=◌ try get_cluster_owner_ref get_owner_by_ref Body.◌>>=◌
    Body.asks Body.pure Body.modify_kcp Body.gets Body.run get_aws_credentials report_protection
    should_delete_cluster reconcile_cluster add_finalizer Body.lock
    kubernetes_kops_operator.Controller.Apply.start get_kops_machine_pools_with_label Body.set_kmps
    Body.report get_kops_clientset before_last act Body.exit for_each current_time
    cleanup_terraform_directory
contended = follow (0 ∷ 1 ∷ 0 ∷ 1 ∷ 0 ∷ 1 ∷ 0 ∷ 0 ∷ 0 ∷ []) (0, _, none_yet)

second_waits : turn 1 contended.1 ≡ waits
unfolding contended
second_waits = refl

first_writes : Next is_critical (pending contended.1.workers 0)
unfolding contended
first_writes = refl

contended_finish :
    ((i : ℕ) → turn i contended.1 ≢ fatal)
    × (Rest contended.1 ⊎ ((i : ℕ) × Moves (turn i contended.1)))
    × (contended.0 + total contended.1.workers ≡ total (start (reconciler false) queues).workers)
contended_finish = Turns-finish (reconciler false) queues contended.2
