-- ===== src/Controller/Named.antt =====
-- The name of the kOps cluster that `Reconcile` makes.
use kubernetes_kops_operator.Prelude.{String, Bool, true, false, Option, ◌≡◌, refl}
use kubernetes_kops_operator.Api.Kops.{KopsCluster, Cluster}
use kubernetes_kops_operator.Io
use kubernetes_kops_operator.Io.{Error, Result, ok, err, panic, World, History, Io}
use kubernetes_kops_operator.Controller.Body.{
  CtrlResult, Vars, Step, next, return, crashed, Body, gets, asks, and_then, exit, run, choose,
  pure, ◌>>=◌,
}
use kubernetes_kops_operator.Controller.Keeps.{Invariant}
use kubernetes_kops_operator.Controller.Leads.{Ends, Leads}
use kubernetes_kops_operator.Controller.Reconcile.{make_cluster}

-- A cluster of this name, where the body goes on, and nothing done yet.
abbrev Named : String → Vars → History → Step KopsCluster × Vars × History → Type 0
Named name v h (next c, u, k) = (c.name ≡ name) × (u ≡ v) × (k ≡ h)
Named name v h (return r e, u, k) = (u ≡ v) × (k ≡ h)
Named name v h (crashed, u, k) = (u ≡ v) × (k ≡ h)

record Names (name : String) (w : World) (m : Body KopsCluster) : Type 0 where
  at : (v : Vars) (h : History) → Named name v h (m w v h)

module _ {name : String} {w : World} where
  Names-gets :
      {A : Type 0} (f : Vars → A) (k : A → Body KopsCluster)
      → ((a : A) → Names name w (k a))
      → Names name w (gets f >>= k)
  unfolding gets ◌>>=◌
  Names-gets f k l = record { at = λ v h. (l (f v)).at v h }

  Names-asks :
      {A : Type 0} (f : World → A) (k : A → Body KopsCluster)
      → ((a : A) → Names name w (k a))
      → Names name w (asks f >>= k)
  unfolding asks ◌>>=◌
  Names-asks f k l = record { at = λ v h. (l (f w)).at v h }

  Names-choose :
      (b : Bool) (m n : Body KopsCluster)
      → Names name w m
      → Names name w n
      → Names name w (choose b m n)
  Names-choose true m n k l = k
  Names-choose false m n k l = l

  Names-pure : (c : KopsCluster) → c.name ≡ name → Names name w (pure c)
  unfolding pure
  Names-pure c e = record { at = λ v h. (e, refl, refl) }

  -- A result that stops the body with an error.
  Names-lift :
      (x : Result String) (r : CtrlResult) (failed : Error → Option Error)
      (k : String → Body KopsCluster)
      → ((s : String) → Names name w (k s))
      → Names name w (run (Io.lift x) (λ e. exit r (failed e)) >>= k)
  unfolding run exit ◌>>=◌ Io.lift
  Names-lift (ok s) r failed k l = record { at = λ v h. (l s).at v h }
  Names-lift (err e) r failed k l = record { at = λ v h. (refl, refl) }
  Names-lift panic r failed k l = record { at = λ v h. (refl, refl) }

make_cluster-Names : (owner : Cluster) (w : World) → Names owner.meta.name w (make_cluster owner)
unfolding make_cluster
make_cluster-Names owner w = Names-gets _ _ λ kcp.
    Names-choose _ _ _ (Names-asks _ _ λ x. Names-lift x _ _ _ λ s. Names-pure _ refl)
      (Names-pure _ refl)

module _ {w : World} {P R E : Invariant} {B : Type 0} where
  Named-Ends :
      (name : String) (f : KopsCluster → Body B)
      → ((v : Vars) (h : History) → P v h → E v h)
      → ((c : KopsCluster) → c.name ≡ name → Leads w P R E (f c))
      → (s : Step KopsCluster) (u v : Vars) (k h : History) → Named name v h (s, u, k)
      → P v h
      → Ends R E (and_then (s, u, k) w f)
  Named-Ends name f i l (next c) u v k h (n, e, d) p = (l c n).at u k (rw (e, d) p)
  Named-Ends name f i l (return r x) u v k h (e, d) p = rw (e, d) (i v h p)
  Named-Ends name f i l crashed u v k h (e, d) p = rw (e, d) (i v h p)

  pub make_cluster-Leads :
      (owner : Cluster) (f : KopsCluster → Body B)
      → ((v : Vars) (h : History) → P v h → E v h)
      → ((c : KopsCluster) → c.name ≡ owner.meta.name → Leads w P R E (f c))
      → Leads w P R E (make_cluster owner >>= f)
  unfolding ◌>>=◌
  make_cluster-Leads owner f i l = record {
    at =
        λ v h p. Named-Ends owner.meta.name f i l _ _ v _ h ((make_cluster-Names owner w).at v h) p;
  }
