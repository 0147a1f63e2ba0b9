-- ===== src/Utils/Secrets.antt =====
-- The custom secrets of a cluster: `ReconcileKopsSecrets` and its two halves. Each returns the names
-- in the control plane's status beside its error, since the Go code writes them as it goes. A panic of
-- the outside loses what was written to the status in that call.
pub mod Contents
pub mod Names
pub mod Synced
use kubernetes_kops_operator.Prelude.{
  String, Bool, not, ◌&&◌, Option, none, some, List, [], ◌∷◌, ◌++◌, ◌==◌, contains, if◌then◌else◌,
}
use kubernetes_kops_operator.Prelude.Dict.{Dict, has_key}
use kubernetes_kops_operator.Api.Meta.{ObjectKey}
use kubernetes_kops_operator.Io.{Error, Io, pure, perform, act, ◌>>=◌, try, choose}
use kubernetes_kops_operator.Outside.Call.{Call}

abbrev pub Tracked : Type 0
Tracked = List String × Option Error

-- `append(s[:index], s[index+1:]...)` at the first index of the name.
unfoldable pub remove_first : String → List String → List String
remove_first name [] = []
remove_first name (s ∷ l) = if s == name then l else s ∷ remove_first name l

unfoldable pub is_kops_secret_in_status : String → List String → Bool
is_kops_secret_in_status name status = contains status name

-- The loop over a copy of the names that the status had.
unfoldable pub delete_loop : Dict String → List String → List String → Io Tracked
unfolding remove_first
delete_loop wanted [] status = pure (status, none)
delete_loop wanted (name ∷ names) status =
    choose (has_key name wanted) (delete_loop wanted names status) (
      try (act (Call.delete_secret name)) (λ _. delete_loop wanted names (remove_first name status))
        (λ e. pure (status, some e)))

unfoldable pub reconcile_kops_secrets_delete : Dict String → List String → Io Tracked
unfolding delete_loop
reconcile_kops_secrets_delete wanted status = delete_loop wanted status status

abbrev pub track : String → List String → List String
track name status = if contains status name then status else status ++ (name ∷ [])

-- The loop over the entries of the Kubernetes secret, in some order.
unfoldable pub reconcile_kops_secrets_normal : Dict String → List String → Io Tracked
reconcile_kops_secrets_normal [] status = pure (status, none)
reconcile_kops_secrets_normal ((name, value) ∷ wanted) status =
    let next = reconcile_kops_secrets_normal wanted (track name status) in
    try (perform (Call.get_or_create_secret name value))
      (λ (stored, created).
        choose (not created && not (stored == value))
          (try (act (Call.replace_secret name value)) (λ _. next) (λ e. pure (status, some e)))
          next)
      (λ e. pure (status, some e))

-- Only where the first half went well does the second one run.
unfoldable pub stop_or_go : Dict String → Tracked → Io Tracked
stop_or_go wanted (status, some e) = pure (status, none)
stop_or_go wanted (status, none) = do
  normal ← reconcile_kops_secrets_normal wanted status
  pure (normal.0, none)

-- The errors of both halves are dropped: the function returns nil for them.
unfoldable pub reconcile_kops_secrets : ObjectKey → List String → Io Tracked
unfolding stop_or_go
reconcile_kops_secrets key status =
    try (perform (Call.get_secret key))
      (λ wanted. do
        deleted ← reconcile_kops_secrets_delete wanted status
        stop_or_go wanted deleted)
      (λ e. pure (status, some e))
