-- ===== src/Controller/Deferred.antt =====
-- The deferred function of `Reconcile`: it frees the lock, writes the objects back, cleans the
-- terraform directory and counts the error.
use kubernetes_kops_operator.Prelude.{String, not, Option, none, some, ◌&&◌}
use kubernetes_kops_operator.Prelude.Dict.{lookup}
use kubernetes_kops_operator.Api.{KopsControlPlane, KopsMachinePool}
use kubernetes_kops_operator.Api.Meta.{is_zero}
use kubernetes_kops_operator.Api.Kops.{Cluster}
use kubernetes_kops_operator.Io.{
  Error, Io, pure, perform, emit, current_time, ◌>>=◌, ◌>>◌, try, when, choose, for_each,
}
use kubernetes_kops_operator.Outside.Call.{Call}
use kubernetes_kops_operator.Terraform.Files.{cleanup_terraform_directory}
use kubernetes_kops_operator.Controller.Body.{Vars, Reconciler}

abbrev failed_kmp : Error → Io (Unit {0})
failed_kmp e = emit (Call.event "FailedToUpdateKopsMachinePool" e.message)

abbrev failed_kcp : Error → Io (Unit {0})
failed_kcp e = emit (Call.event "FailedToUpdateKopsControlPlane" e.message)

-- `Update` replaces the object by what the server returns, and so would lose the new status: it is
-- put back before the status is written.
unfoldable pub write_kmp : KopsControlPlane → KopsMachinePool → Io (Unit {0})
write_kmp kcp kmp = do
  stored ← try (perform (Call.update_kmp kmp)) pure (λ e. failed_kmp e >> pure kmp)
  when (is_zero kmp.meta.deletion_timestamp && is_zero kcp.meta.deletion_timestamp) (
      try (perform (Call.update_kmp_status (record stored { status = kmp.status }))) (λ _. pure tt)
        failed_kmp)

-- The object that stands in the variable afterwards.
unfoldable pub write_kcp : KopsControlPlane → Io KopsControlPlane
write_kcp kcp = do
  stored ← try (perform (Call.update_kcp kcp)) pure (λ e. failed_kcp e >> pure kcp)
  let restored = record stored { status = kcp.status }
  choose (is_zero kcp.meta.deletion_timestamp)
      (try (perform (Call.update_kcp_status restored)) pure (λ e. failed_kcp e >> pure restored))
      (pure stored)

abbrev pub environment : Cluster → String
environment owner = elim (lookup "environment" owner.meta.labels) [ none ↦ "" | some e ↦ e ]

abbrev pub set_gauge : String → String → Option Error → Io (Unit {0})
set_gauge name env none = emit (Call.errors_reset name env)
set_gauge name env (some e) = emit (Call.errors_inc name env)

-- What a run that is not dry does after the lock is free.
unfoldable pub write_back : Cluster → String → Option Error → Vars → Io (Unit {0})
unfolding write_kmp write_kcp
write_back owner dir failed v = do
  for_each v.kmps (write_kmp v.kcp)
  time ← current_time
  let kcp = record v.kcp { status = record v.kcp.status { last_reconciled = some time } }
  stored ← write_kcp kcp
  when stored.spec.cleanup_terraform_directory (
      try (cleanup_terraform_directory dir) pure
        (λ e. emit (Call.event "FailedCleanupTerraformDirectory" e.message)))
  set_gauge stored.meta.name (environment owner) failed

unfoldable pub deferred : Reconciler → Cluster → String → Option Error → Vars → Io (Unit {0})
unfolding write_back
deferred r owner dir failed v = do
  when v.should_unlock (emit Call.mux_unlock)
  when (not r.dry_run) (write_back owner dir failed v)
