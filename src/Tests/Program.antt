-- ===== src/Tests/Program.antt =====
-- The theorems about the entry point and its loop at concrete inputs.
use kubernetes_kops_operator.Prelude.{true, false, none, [], ◌∷◌, ◌≡◌, refl}
use kubernetes_kops_operator.Io.Emits.{Extends}
use kubernetes_kops_operator.Io.Sure.{OnOk, Done}
use kubernetes_kops_operator.Outside.Call.{Call}
use kubernetes_kops_operator.Controller.Reconcile.{reconcile}
use kubernetes_kops_operator.Controller.Safety.{Free}
use kubernetes_kops_operator.Controller.DryRun.{dry_effects}
use kubernetes_kops_operator.Io.{ok, try, perform, pure}
use kubernetes_kops_operator.Entry.Start.{Flags, default_flags, main, main-dry}
use kubernetes_kops_operator.Entry.Serving.{Completed, main-Completed}
use kubernetes_kops_operator.Entry.{is_selected}
use kubernetes_kops_operator.Entry.Selection.{ByChoice, owned_by, reconcile-is_selected}
use kubernetes_kops_operator.Controller.Body.{Reconciler}
use kubernetes_kops_operator.Controller.Reconcile.{load_kcp, found}
use kubernetes_kops_operator.Tests.Data.{world, reconciler, key, kcp_of}

abbrev planning : Flags
planning = record default_flags { dry_run = true; cluster = "prod" }

abbrev elsewhere : Reconciler
elsewhere = record (reconciler false) { cluster = "staging" }

main-dry_example :
    Extends dry_effects [] (main planning (world none) []).1
    × Free (main planning (world none) []).1
main-dry_example = main-dry planning refl (world none) [] (refl, tt)

main-Completed_example :
    OnOk
      (λ a k. Completed (world none) default_flags [] k × Done (world none) Call.start_manager [] k)
      (main default_flags (world none) [])
main-Completed_example = main-Completed default_flags refl (world none) []

loaded : load_kcp elsewhere key (world none) [] ≡ (ok (found (kcp_of none)), Call.get_kcp key ∷ [])
unfolding load_kcp try perform pure
loaded = refl

ByChoice_example :
    ByChoice
      (is_selected elsewhere (kcp_of none))
      (reconcile elsewhere key (world none) [])
      (owned_by elsewhere (kcp_of none) (world none) (Call.get_kcp key ∷ []))
      (Call.get_kcp key ∷ [])
ByChoice_example =
    reconcile-is_selected elsewhere key (kcp_of none) (world none) [] (Call.get_kcp key ∷ []) loaded
