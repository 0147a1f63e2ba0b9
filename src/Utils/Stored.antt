-- ===== src/Utils/Stored.antt =====
-- The custom secrets against the secret store of kOps.
use kubernetes_kops_operator.Prelude.{
  String, Bool, true, false, not, ◌&&◌, ◌==◌, none, some, List, [], ◌∷◌, All, ◌≡◌, refl, ◌⊎◌, inl,
  inr, eq_iff, arith,
}
use kubernetes_kops_operator.Prelude.Dict.{Dict, has_key}
use kubernetes_kops_operator.Io.{ok, World, History, Io, act, perform}
use kubernetes_kops_operator.Io.Emits.{same, Emits-act}
use kubernetes_kops_operator.Io.Sure.{
  Since, Done, later, OnOk, Sure, Sure-act, Sure-and, Sure-given, Sure-kept, Sure-perform,
  Sure-pure, Sure-try, Sure-weaken, Sure-decide, Sure-Done, Sure-Emits, all_effects,
}
use kubernetes_kops_operator.Outside.Call.{Call}
use kubernetes_kops_operator.Utils.Effects.{normal-Emits, delete_loop-Emits}
use kubernetes_kops_operator.Utils.Secrets.{
  Tracked, delete_loop, reconcile_kops_secrets_delete, reconcile_kops_secrets_normal, track,
}

-- `D` where no error came back.
abbrev pub OrError : (History → Type 0) → Tracked → History → Type 0
OrError D (status, none) k = D k
OrError D (status, some e) k = Unit

-- Since `h` the store has answered for the name that it created the value, or holds it, or the value was
-- written in place of another with success.
abbrev pub Stored : World → History → History → String × String → Type 0
Stored w h k (name, value) =
    (j : History) × (stored : String) × (created : Bool) × Since h j
    × (w.answer j (Call.get_or_create_secret name value) ≡ ok (stored, created))
    × ((created ≡ true) ⊎ (stored ≡ value) ⊎ Done w (Call.replace_secret name value) h k)

-- The name is wanted, or was deleted with success since `h`.
abbrev pub Cleared : World → Dict String → History → History → String → Type 0
Cleared w wanted h k name = (has_key name wanted ≡ true) ⊎ Done w (Call.delete_secret name) h k

module _ (w : World) (h : History) where
  Stored-later :
      (x : String × String) (c : Call) (k : History) → Stored w h k x → Stored w h (c ∷ k) x
  Stored-later (name, value) c k (j, s, b, p, a, inl e) = (j, s, b, p, a, inl e)
  Stored-later (name, value) c k (j, s, b, p, a, inr (inl e)) = (j, s, b, p, a, inr (inl e))
  Stored-later (name, value) c k (j, s, b, p, a, inr (inr d)) =
      (j, s, b, p, a, inr (inr (later c d)))

  Cleared-later :
      (wanted : Dict String) (name : String) (c : Call) (k : History)
      → Cleared w wanted h k name
      → Cleared w wanted h (c ∷ k) name
  Cleared-later wanted name c k (inl e) = inl e
  Cleared-later wanted name c k (inr d) = inr (later c d)

  -- What was reached before stays, and is put in front of what comes behind.
  in_front :
      (F G H : History → Type 0) (m : Io Tracked)
      → ((k : History) → F k → G k → H k)
      → Sure w (Since h) (OrError G) m
      → Sure w F (λ a. F) m
      → Sure w (λ k. Since h k × F k) (OrError H) m
  in_front F G H m i s t = Sure-weaken (Sure-and s t) (λ a k. go a k)
    where
      go : (a : Tracked) (k : History) → OrError G a k × F k → OrError H a k
      go (status, none) k (g, f) = i k f g
      go (status, some e) k p = tt

  delete_loop-Cleared :
      (wanted : Dict String) (names status : List String)
      → Sure w
          (Since h)
          (OrError (λ k. All (Cleared w wanted h k) names))
          (delete_loop wanted names status)
  unfolding delete_loop
  delete_loop-Cleared wanted [] status = Sure-pure _ (λ k p. tt)
  delete_loop-Cleared wanted (name ∷ names) status =
      Sure-decide (has_key name wanted) _ _
        (λ e. Sure-weaken (delete_loop-Cleared wanted names status) (λ a k. kept e a k))
        (λ e.
          Sure-try _ {S = λ k. Unit} (act (Call.delete_secret name)) _ _
            (Sure-Done h (Call.delete_secret name)) (λ k p. tt)
            (λ u.
              in_front (Done w (Call.delete_secret name) h) _ _ _ (λ k d p. (inr d, p))
                (delete_loop-Cleared wanted names _)
                (Sure-kept {C = all_effects} _ (λ c k q d. later c d)
                  (delete_loop-Emits refl refl wanted names _)))
            (λ x. Sure-pure _ (λ k p. tt)))
    where
      kept :
          has_key name wanted ≡ true
          → (a : Tracked) (k : History) → OrError (λ k. All (Cleared w wanted h k) names) a k
          → OrError (λ k. All (Cleared w wanted h k) (name ∷ names)) a k
      kept e (s, none) k p = (inl e, p)
      kept e (s, some x) k p = tt

  normal-Stored :
      (wanted : Dict String) (status : List String)
      → Sure w
          (Since h)
          (OrError (λ k. All (Stored w h k) wanted))
          (reconcile_kops_secrets_normal wanted status)
  unfolding reconcile_kops_secrets_normal
  normal-Stored [] status = Sure-pure _ (λ k p. tt)
  normal-Stored ((name, value) ∷ wanted) status =
      let next : Sure w (λ k. Since h k × Stored w h k (name, value))
          (OrError (λ k. All (Stored w h k) ((name, value) ∷ wanted)))
          (reconcile_kops_secrets_normal wanted (track name status)) =
        in_front (λ k. Stored w h k (name, value)) _ _ _ (λ k f g. (f, g)) (normal-Stored wanted _)
          (Sure-kept {C = all_effects} _ (λ c k q d. Stored-later (name, value) c k d)
            (normal-Emits refl refl wanted _)) in
      Sure-try _ {S = λ k. Unit} (perform (Call.get_or_create_secret name value)) _ _
        (Sure-perform h (Call.get_or_create_secret name value)) (λ k p. tt)
        (λ (stored, created).
          Sure-decide (not created && not (stored == value)) _ _
            (λ e.
              Sure-try _ {S = λ k. Unit} (act (Call.replace_secret name value)) _ _
                (Sure-given (λ k p. ((p.0, p.0), p.1))
                  (Sure-and
                    (Sure-and (Sure-Emits h _ (Emits-act (Call.replace_secret name value) refl))
                      (Sure-act h (Call.replace_secret name value)))
                    (Sure-kept {C = all_effects} _ (λ c k q d. d)
                      (Emits-act (Call.replace_secret name value) refl))))
                (λ k p. tt)
                (λ u.
                  Sure-given
                    (λ k p. (p.0.0, (p.1.0, stored, created, p.1.1, p.1.2, inr (inr p.0.1)))) next)
                (λ x. Sure-pure _ (λ k p. tt)))
            (λ e.
              Sure-given
                (λ k p. (p.0, (p.1.0, stored, created, p.1.1, p.1.2, agreed created stored e)))
                next))
        (λ x. Sure-pure _ (λ k p. tt))
    where
      agreed :
          {D : Type 0} (created : Bool) (stored : String)
          → (not created && not (stored == value)) ≡ false
          → (created ≡ true) ⊎ (stored ≡ value) ⊎ D
      agreed true stored e = inl refl
      agreed false stored e = inr (inl (ground (arith, eq_iff stored value)))

-- A deletion without an error: each name that the status had is wanted, or its secret was deleted from the
-- store with success since the start.
pub secrets_delete-Cleared :
    (wanted : Dict String) (status : List String) (w : World) (h : History)
    → OnOk
        (OrError (λ k. All (Cleared w wanted h k) status))
        (reconcile_kops_secrets_delete wanted status w h)
unfolding reconcile_kops_secrets_delete
secrets_delete-Cleared wanted status w h = (delete_loop-Cleared w h wanted status status).at h same

-- The other half without an error: for each wanted secret the store has answered, since the start, that it
-- created the value or holds it, or the value was written in place of another with success.
pub secrets_normal-Stored :
    (wanted : Dict String) (status : List String) (w : World) (h : History)
    → OnOk
        (OrError (λ k. All (Stored w h k) wanted))
        (reconcile_kops_secrets_normal wanted status w h)
secrets_normal-Stored wanted status w h = (normal-Stored w h wanted status).at h same
