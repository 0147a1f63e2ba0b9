-- ===== src/Terraform/Outcome.antt =====
-- What a whole terraform command has done when it returns.
use kubernetes_kops_operator.Prelude.{
  ℕ, ◌+◌, ◌≤◌, ◌≡◌, refl, ◌⊎◌, inl, inr, String, ◌<>◌, Bool, true, false, Option, none, some, ◌∷◌,
  arith,
}
use kubernetes_kops_operator.Api.Kops.{Credentials}
use kubernetes_kops_operator.Io.{
  Error, Result, ok, err, panic, World, History, act, ◌>>=◌, ◌>>◌, continue, wrap,
}
use kubernetes_kops_operator.Io.Count.{count, count-Extends, discard}
use kubernetes_kops_operator.Outside.Call.{Call}
use kubernetes_kops_operator.Outside.Effect.{effect}
use kubernetes_kops_operator.Terraform.Retry.{is_retriable_error, attempts, retry, max_retries}
use kubernetes_kops_operator.Terraform.Run.{init_terraform, apply_terraform, destroy_terraform}
use kubernetes_kops_operator.Terraform.Effects.{init_effects, init_terraform-Emits}
use kubernetes_kops_operator.Terraform.Laws.{
  Stopped, attempts-Stopped, attempts-count-le, closing, retry-closing,
}

-- After the command `c` was to be run from the history `h`:
-- success means that its last run was the last call and was answered with success;
-- an error means that it was never run, or that its last run was the last call, failed with the
-- error that is passed on, and that this error is not retriable or five runs were made.
abbrev pub Ran :
    World → String → Call → (Call → Bool) → History → Result (Unit {0}) × History → Type 0
Ran w name c p h (ok _, k) = (j : History) × (k ≡ c ∷ j) × (discard (w.answer j c) ≡ ok tt)
Ran w name c p h (err x, k) =
    (count p k ≡ count p h)
    ⊎ ((e : Error) × (j : History) × (x
          ≡ wrap ("terraform " <> name <> " failed after 5 retries") e)
        × (k ≡ c ∷ j)
        × (discard (w.answer j c) ≡ err e)
        × ((is_retriable_error e ≡ false) ⊎ (count p k ≡ count p h + 5)))
Ran w name c p h (panic, k) = Unit

module _ (c : Call) (w : World) (p : Call → Bool) (runs : p c ≡ true)
    (pauses : (n : ℕ) → p (Call.sleep_ms n) ≡ false) (name : String) where
  closing-Ran :
      (h : History) (r : Result (Option Error) × History)
      → Stopped c w p 5 h r
      → Ran w name c p h (closing c w p runs pauses name r)
  closing-Ran h (ok none, k) s = s
  closing-Ran h (ok (some e), k) (j, q, a, s) = inr (e, j, refl, q, a, s)
  closing-Ran h (err e, k) s = absurd s
  closing-Ran h (panic, k) s = tt

  retry-Ran : (h : History) → Ran w name c p h (retry name (act c) w h)
  retry-Ran h =
      rw (retry-closing c w p runs pauses name h)
        (closing-Ran h _ (attempts-Stopped c w p runs pauses 4 0 none h refl))

  retry-count-le : (h : History) → count p (retry name (act c) w h).1 ≤ count p h + 5
  retry-count-le h = rw (retry-closing c w p runs pauses name h) (
      go (attempts (act c) max_retries 0 none w h) (attempts-count-le c w p runs pauses 5 0 none h))
    where
      go :
          (r : Result (Option Error) × History)
          → count p r.1 ≤ count p h + 5
          → count p (closing c w p runs pauses name r).1 ≤ count p h + 5
      go (ok none, k) b = b
      go (ok (some e), k) b = b
      go (err e, k) b = b
      go (panic, k) b = b

  module _ (unseen : (d : Call) → init_effects (effect d) ≡ true → p d ≡ false) (dir exec : String)
      (creds : Credentials) where
    init_then-Ran :
        (h : History) → Ran w name c p h ((init_terraform dir exec creds >> retry name (act c)) w h)
    unfolding ◌>>=◌
    init_then-Ran h =
        go (init_terraform dir exec creds w h)
          (count-Extends p init_effects unseen ((init_terraform-Emits dir exec creds).at w h))
      where
        later :
            (k : History) (r : Result (Unit {0}) × History)
            → count p k ≡ count p h
            → Ran w name c p k r
            → Ran w name c p h r
        later k (ok _, l) e s = s
        later k (err x, l) e s = rw e at s
        later k (panic, l) e s = s

        go :
            (r : Result (Unit {0}) × History)
            → count p r.1 ≡ count p h
            → Ran w name c p h (continue r w (λ _. retry name (act c)))
        go (ok a, k) e = later k _ e (retry-Ran k)
        go (err x, k) e = inl e
        go (panic, k) e = tt

    init_then-count-le :
        (h : History)
        → count p ((init_terraform dir exec creds >> retry name (act c)) w h).1 ≤ count p h + 5
    unfolding ◌>>=◌
    init_then-count-le h =
        go (init_terraform dir exec creds w h)
          (count-Extends p init_effects unseen ((init_terraform-Emits dir exec creds).at w h))
      where
        go :
            (r : Result (Unit {0}) × History)
            → count p r.1 ≡ count p h
            → count p (continue r w (λ _. retry name (act c))).1 ≤ count p h + 5
        go (ok a, k) e = omega (arith, retry-count-le k)
        go (err x, k) e = omega arith
        go (panic, k) e = omega arith

abbrev pub is_apply : Call → Bool
is_apply Call.tf_apply = true
is_apply _ = false

abbrev pub is_destroy : Call → Bool
is_destroy Call.tf_destroy = true
is_destroy _ = false

no_apply_in_init : (d : Call) → init_effects (effect d) ≡ true → is_apply d ≡ false
no_apply_in_init Call.tf_apply e = cc
no_apply_in_init _ e = refl

no_destroy_in_init : (d : Call) → init_effects (effect d) ≡ true → is_destroy d ≡ false
no_destroy_in_init Call.tf_destroy e = cc
no_destroy_in_init _ e = refl

module _ (dir exec : String) (creds : Credentials) (w : World) (h : History) where
  -- `ApplyTerraform` makes at most five runs of the command. If it succeeds, its last call is a run that was
  -- answered with success. If it fails, it ran nothing, or its last call is a run that failed with the
  -- error that is passed on, and that error is not retriable or five runs were made.
  pub apply_terraform-Ran :
      Ran w "apply" Call.tf_apply is_apply h (apply_terraform dir exec creds w h)
      × (count is_apply (apply_terraform dir exec creds w h).1 ≤ count is_apply h + 5)
  unfolding apply_terraform
  apply_terraform-Ran = (
    init_then-Ran Call.tf_apply w is_apply refl (λ n. refl) "apply" no_apply_in_init dir exec creds
        h,
    init_then-count-le Call.tf_apply w is_apply refl (λ n. refl) "apply" no_apply_in_init dir exec
        creds h,
  )

  -- `DestroyTerraform` makes at most five runs of the command. If it succeeds, its last call is a run that was
  -- answered with success. If it fails, it ran nothing, or its last call is a run that failed with the
  -- error that is passed on, and that error is not retriable or five runs were made.
  pub destroy_terraform-Ran :
      Ran w "destroy" Call.tf_destroy is_destroy h (destroy_terraform dir exec creds w h)
      × (count is_destroy (destroy_terraform dir exec creds w h).1 ≤ count is_destroy h + 5)
  unfolding destroy_terraform
  destroy_terraform-Ran = (
    init_then-Ran Call.tf_destroy w is_destroy refl (λ n. refl) "destroy" no_destroy_in_init dir
        exec creds h,
    init_then-count-le Call.tf_destroy w is_destroy refl (λ n. refl) "destroy" no_destroy_in_init
        dir exec creds h,
  )
