-- ===== src/Controller/Written.antt =====
-- What is in the state store when a cluster or an instance group was written.
use kubernetes_kops_operator.Prelude.{String, true, ◌∷◌, ◌≡◌, refl, ◌⊎◌, inl, inr}
use kubernetes_kops_operator.Api.Kops.{KopsCluster, InstanceGroup}
use kubernetes_kops_operator.Io.{
  Error, Result, ok, err, panic, World, History, Io, recover, perform, act, ◌>>=◌, try,
}
use kubernetes_kops_operator.Io.Emits.{Emits, emits_rules, Emits-act, same, more}
use kubernetes_kops_operator.Io.Count.{discard}
use kubernetes_kops_operator.Io.Sure.{
  Done, later, Since, OnOk, Sure, Sure-bind, Sure-act, Sure-Emits, Sure-Done, Sure-and, Sure-given,
  Sure-kept, Sure-weaken, Sure-fail, Sure-decide, all_effects,
}
use kubernetes_kops_operator.Outside.Call.{Call, Reply}
use kubernetes_kops_operator.Controller.State.{
  add_ssh_credential, get_cluster_status, create_or_update_kops_cluster,
}

-- The store answered that the cluster exists, and it was updated; or that it does not, and it was created and
-- got its SSH key.
abbrev pub ClusterWritten : World → KopsCluster → String → History → History → Type 0
ClusterWritten w cluster ssh_public_key h k =
    ((old : KopsCluster) × (w.answer h (Call.get_kops_cluster cluster.name) ≡ ok old)
      × Done w (Call.update_kops_cluster cluster) h k)
    ⊎ ((e : Error) × (w.answer h (Call.get_kops_cluster cluster.name) ≡ err e)
        × (e.not_found ≡ true)
        × Done w (Call.create_kops_cluster cluster) h k
        × Done w (Call.add_ssh_public_key ssh_public_key) h k)

-- The same of an instance group.
abbrev pub GroupWritten : World → InstanceGroup → History → History → Type 0
GroupWritten w group h k =
    ((discard (w.answer h (Call.get_instance_group group.name)) ≡ ok tt)
      × Done w (Call.update_instance_group group) h k)
    ⊎ ((e : Error) × (discard (w.answer h (Call.get_instance_group group.name)) ≡ err e)
        × (e.not_found ≡ true)
        × Done w (Call.create_instance_group group) h k)

module _ (w : World) (h : History) where
  -- An action whose first call is `c`, by the answer.
  by_answer :
      (Q : History → Type 0) (c : Call) (f : Reply c → Io (Unit {0})) (g : Error → Io (Unit {0}))
      → ((x : Reply c) → w.answer h c ≡ ok x → Sure w (Since h) (λ _. Q) (f x))
      → ((e : Error) → w.answer h c ≡ err e → Sure w (Since h) (λ _. Q) (g e))
      → OnOk (λ _. Q) (try (perform c) f g w h)
  unfolding try perform
  by_answer Q c f g k l = go (w.answer h c) refl
    where
      go : (r : Result (Reply c)) → w.answer h c ≡ r → OnOk (λ _. Q) (recover (r, c ∷ h) w f g)
      go (ok x) e = (k x e).at (c ∷ h) (more c refl same)
      go (err x) e = (l x e).at (c ∷ h) (more c refl same)
      go panic e = tt

  -- `c` and then `m`, with success.
  first_and_then :
      (c : Call) (m : Io (Unit {0})) (Q : History → Type 0)
      → Emits all_effects m
      → Sure w (Since h) (λ _. Q) m
      → Sure w (Since h) (λ _ k. Done w c h k × Q k) (act c >>= λ _. m)
  first_and_then c m Q e s =
      Sure-bind _ (act c) (λ _. m) (Sure-Done h c)
        (λ _. Sure-given (λ k p. (p.1, p.0)) (Sure-and (Sure-kept m (λ x k _ d. later x d) e) s))

  -- `m`, and then `c` with success.
  and_at_last :
      (m : Io (Unit {0})) (c : Call)
      → Emits all_effects m
      → Sure w (Since h) (λ _. Done w c h) (m >>= λ _. act c)
  and_at_last m c e = Sure-bind _ m (λ _. act c) (Sure-Emits h m e) (λ _. Sure-act h c)

  ssh-Done :
      (cluster : KopsCluster) (key : String)
      → Sure w
          (Since h)
          (λ _. Done w (Call.add_ssh_public_key key) h)
          (add_ssh_credential cluster key)
  unfolding add_ssh_credential
  ssh-Done cluster key = and_at_last _ _ (Emits-act _ refl)

  status-Emits : (cluster : KopsCluster) → Emits all_effects (get_cluster_status cluster)
  unfolding get_cluster_status
  status-Emits cluster = search emits_rules depth 8

  ssh-Emits :
      (cluster : KopsCluster) (key : String) → Emits all_effects (add_ssh_credential cluster key)
  unfolding add_ssh_credential
  ssh-Emits cluster key = search emits_rules depth 8

  -- With success the state store has the cluster: it answered that it knows the name, and then took the update;
  -- or it answered that it does not, and then took the new cluster and its SSH key.
  pub cluster-Written :
      (cluster : KopsCluster) (ssh_public_key : String)
      → OnOk
          (λ _. ClusterWritten w cluster ssh_public_key h)
          (create_or_update_kops_cluster cluster ssh_public_key w h)
  unfolding create_or_update_kops_cluster
  cluster-Written cluster key =
      by_answer (ClusterWritten w cluster key h) (Call.get_kops_cluster cluster.name) _ _
        (λ old e.
          Sure-weaken (and_at_last (get_cluster_status old) _ (status-Emits old))
            (λ _ k d. inl (old, e, d)))
        (λ x e.
          Sure-decide x.not_found _ _
            (λ t.
              Sure-weaken (first_and_then _ _ _ (ssh-Emits cluster key) (ssh-Done cluster key))
                (λ _ k d. inr (x, e, t, d.0, d.1)))
            (λ f. Sure-fail x))
