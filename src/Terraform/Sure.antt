-- ===== src/Terraform/Sure.antt =====
-- `ApplyTerraform` and `DestroyTerraform`: what their success says about the runs of the command.
use kubernetes_kops_operator.Prelude.{ℕ, zero, suc, ◌+◌, refl, String, ◌<>◌, Option, none, some}
use kubernetes_kops_operator.Api.Kops.{Credentials}
use kubernetes_kops_operator.Io.{Error, World, History, act, pure, fail, maybe, wrap}
use kubernetes_kops_operator.Io.Emits.{Extends-trans, Emits-act, Emits-emit, Emits-weaken}
use kubernetes_kops_operator.Io.Sure.{
  Since, Done, Sure, Sure-act, Sure-Emits, Sure-bind, Sure-choose, Sure-fail, Sure-pure, Sure-try,
  all_effects,
}
use kubernetes_kops_operator.Outside.Call.{Call}
use kubernetes_kops_operator.Terraform.Retry.{attempts, retry}
use kubernetes_kops_operator.Terraform.Run.{init_terraform, apply_terraform, destroy_terraform}
use kubernetes_kops_operator.Terraform.Effects.{init_effects, init_terraform-Emits}

-- The command was run with success, if the loop has no error.
abbrev OrFailed : World → Call → History → Option Error → History → Type 0
OrFailed w c h none k = Done w c h k
OrFailed w c h (some e) k = Unit

-- The loop has an error to return where no round is left.
abbrev Pending : ℕ → Option Error → Type 0
Pending zero none = ⊥
Pending _ _ = Unit

module _ (w : World) (c : Call) (h : History) where
  attempts-Sure :
      (left i : ℕ) (last : Option Error)
      → Pending left last
      → Sure w (Since h) (OrFailed w c h) (attempts (act c) left i last)
  unfolding attempts
  attempts-Sure zero i none pending = absurd pending
  attempts-Sure zero i (some e) pending = Sure-pure (some e) (λ k p. tt)
  attempts-Sure (suc left) i last pending =
      Sure-try (OrFailed w c h) (act c) _ _ (Sure-act h c)
        (λ k p. Extends-trans p ((Emits-act c refl).at w k)) (λ _. Sure-pure none (λ k d. d))
        (λ e. Sure-choose _ _ _ (Sure-pure (some e) (λ k p. tt)) (
          Sure-choose _ _ _ (Sure-pure (some e) (λ k p. tt)) (
            Sure-bind (OrFailed w c h) _ _ (Sure-Emits h _ (Emits-emit _ refl))
              (λ _. attempts-Sure left (i + 1) (some e) (later left e)))))
    where
      later : (n : ℕ) (e : Error) → Pending n (some e)
      later zero e = tt
      later (suc n) e = tt

  retry-Sure : (name : String) → Sure w (Since h) (λ _. Done w c h) (retry name (act c))
  unfolding retry
  retry-Sure name = Sure-bind (λ _. Done w c h) _ _ (attempts-Sure 5 0 none tt) end
    where
      end :
          (o : Option Error)
          → Sure w
              (OrFailed w c h o)
              (λ _. Done w c h)
              (maybe o
                (pure tt)
                (λ e. fail (wrap ("terraform " <> name <> " failed after 5 retries") e)))
      end none = Sure-pure tt (λ k d. d)
      end (some e) = Sure-fail _

  init-Sure :
      (dir exec : String) (creds : Credentials)
      → Sure w (Since h) (λ _. Since h) (init_terraform dir exec creds)
  init-Sure dir exec creds =
      Sure-Emits h _ (
        Emits-weaken init_effects all_effects (λ x e. refl) _ (init_terraform-Emits dir exec creds))

module _ (w : World) (h : History) (dir exec : String) (creds : Credentials) where
  pub apply_terraform-Sure :
      Sure w (Since h) (λ _. Done w Call.tf_apply h) (apply_terraform dir exec creds)
  unfolding apply_terraform
  apply_terraform-Sure =
      Sure-bind (λ _. Done w Call.tf_apply h) _ _ (init-Sure w Call.tf_apply h dir exec creds)
        λ _. retry-Sure w Call.tf_apply h "apply"

  pub destroy_terraform-Sure :
      Sure w (Since h) (λ _. Done w Call.tf_destroy h) (destroy_terraform dir exec creds)
  unfolding destroy_terraform
  destroy_terraform-Sure =
      Sure-bind (λ _. Done w Call.tf_destroy h) _ _ (init-Sure w Call.tf_destroy h dir exec creds)
        λ _. retry-Sure w Call.tf_destroy h "destroy"
