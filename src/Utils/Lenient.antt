-- ===== src/Utils/Lenient.antt =====
-- `ReconcileKopsSecrets`: what becomes of the errors of the secret store.
use kubernetes_kops_operator.Prelude.{String, none, some, List, ◌∷◌, ◌≡◌, refl}
use kubernetes_kops_operator.Prelude.Dict.{Dict}
use kubernetes_kops_operator.Api.Meta.{ObjectKey}
use kubernetes_kops_operator.Io.{Result, ok, err, panic, World, History, Io, perform, ◌>>=◌, try}
use kubernetes_kops_operator.Io.Sure.{OnOk, Sure, Sure-bind, Sure-pure}
use kubernetes_kops_operator.Outside.Call.{Call}
use kubernetes_kops_operator.Utils.Secrets.{
  Tracked, reconcile_kops_secrets_normal, reconcile_kops_secrets_delete, stop_or_go,
  reconcile_kops_secrets,
}

abbrev pub NoError : Tracked → History → Type 0
NoError t k = t.1 ≡ none

on_ok : {A : Type 0} (r : Result A) (k : History) → OnOk (λ a k. Unit {0}) (r, k)
on_ok (ok a) k = tt
on_ok (err e) k = tt
on_ok panic k = tt

pub all-Sure : {w : World} {A : Type 0} (m : Io A) → Sure w (λ k. Unit {0}) (λ a k. Unit {0}) m
all-Sure {w} m = record { at = λ k p. on_ok (m w k).0 (m w k).1 }

stop_or_go-lenient :
    (w : World) (wanted : Dict String) (t : Tracked)
    → Sure w (λ k. Unit) NoError (stop_or_go wanted t)
unfolding stop_or_go
stop_or_go-lenient w wanted (status, some e) = Sure-pure (status, none) (λ k p. refl)
stop_or_go-lenient w wanted (status, none) =
    Sure-bind NoError _ _ (all-Sure (reconcile_kops_secrets_normal wanted status))
      (λ t. Sure-pure (t.0, none) (λ k p. refl))

behind_deletion :
    (w : World) (wanted : Dict String) (status : List String)
    → Sure w (λ k. Unit) NoError (reconcile_kops_secrets_delete wanted status >>= stop_or_go wanted)
behind_deletion w wanted status =
    Sure-bind {Q = λ a k. Unit} NoError _ _ (all-Sure (reconcile_kops_secrets_delete wanted status))
      (λ t. stop_or_go-lenient w wanted t)

-- Once the Kubernetes secret with the custom secrets was read, no error comes back: not one of a deletion,
-- a creation or a replacement in the secret store of kOps.
pub reconcile_kops_secrets-lenient :
    (key : ObjectKey) (status : List String) (w : World) (h : History) (wanted : Dict String)
    → w.answer h (Call.get_secret key) ≡ ok wanted
    → OnOk NoError (reconcile_kops_secrets key status w h)
unfolding reconcile_kops_secrets try perform
reconcile_kops_secrets-lenient key status w h wanted e =
    rw e ((behind_deletion w wanted status).at (Call.get_secret key ∷ h) tt)
