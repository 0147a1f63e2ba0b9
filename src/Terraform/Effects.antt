-- ===== src/Terraform/Effects.antt =====
-- The effects of the terraform commands: files, the executable and waiting.
use kubernetes_kops_operator.Prelude.{
  String, Bool, true, false, Option, ◌≡◌, refl, arith, ℕ, zero, suc, ◌+◌,
}
use kubernetes_kops_operator.Api.Kops.{Credentials}
use kubernetes_kops_operator.Io.{Error, Io}
use kubernetes_kops_operator.Io.Emits.{Emits, Emits-weaken, emits_rules}
use kubernetes_kops_operator.Outside.Effect.{Effect, Effects}
use kubernetes_kops_operator.Terraform.Retry.{attempts, retry}
use kubernetes_kops_operator.Terraform.Cache.{
  lock_plugin_cache, unlock_plugin_cache, clean_corrupted_provider, copy_file_if_missing,
  validate_plugin_cache,
}
use kubernetes_kops_operator.Terraform.Run.{
  init_attempts, init_locked, init_terraform, apply_terraform, destroy_terraform, plan_terraform,
}

-- What `terraform init` may do besides running the executable.
abbrev pub init_effects : Effects
init_effects Effect.observe = true
init_effects Effect.wait = true
init_effects Effect.file_write = true
init_effects Effect.tf_prepare = true
init_effects _ = false

abbrev pub apply_effects : Effects
apply_effects Effect.tf_apply_run = true
apply_effects e = init_effects e

abbrev pub destroy_effects : Effects
destroy_effects Effect.tf_destroy_run = true
destroy_effects e = init_effects e

abbrev pub plan_effects : Effects
plan_effects Effect.tf_plan_run = true
plan_effects e = init_effects e

module _ {C : Effects} (waits : C Effect.wait ≡ true) where
  attempts-Emits :
      (run : Io (Unit {0})) (left i : ℕ) (last : Option Error)
      → Emits C run
      → Emits C (attempts run left i last)
  unfolding attempts
  attempts-Emits run zero i last k = search emits_rules
  attempts-Emits run (suc left) i last k =
      search (emits_rules, attempts-Emits run left (i + 1)) depth 12

  pub retry-Emits : (name : String) (run : Io (Unit {0})) → Emits C run → Emits C (retry name run)
  unfolding retry
  retry-Emits name run k = search (emits_rules, attempts-Emits) depth 8

copy-Emits : (src dst : String) → Emits init_effects (copy_file_if_missing src dst)
unfolding copy_file_if_missing
copy-Emits src dst = search emits_rules depth 8

validate-Emits : (cache : String) → Emits init_effects (validate_plugin_cache cache)
unfolding validate_plugin_cache
validate-Emits cache = search emits_rules depth 12

clean-Emits :
    (cache provider : String) → Emits init_effects (clean_corrupted_provider cache provider)
unfolding clean_corrupted_provider
clean-Emits cache provider = search emits_rules depth 12

lock-Emits : (cache : String) → Emits init_effects (lock_plugin_cache cache)
unfolding lock_plugin_cache
lock-Emits cache = search emits_rules depth 12

unlock-Emits : (lock : String) → Emits init_effects (unlock_plugin_cache lock)
unfolding unlock_plugin_cache
unlock-Emits lock = search emits_rules depth 12

init_attempts-Emits :
    (cache : String) (left i : ℕ) (cleaned : Bool) (last : Option Error)
    → Emits init_effects (init_attempts cache left i cleaned last)
unfolding init_attempts
init_attempts-Emits cache zero i cleaned last = search emits_rules
init_attempts-Emits cache (suc left) i cleaned last =
    search (emits_rules, clean-Emits, init_attempts-Emits cache left (i + 1)) depth 12

init_locked-Emits : (dir exec cache : String) → Emits init_effects (init_locked dir exec cache)
unfolding init_locked
init_locked-Emits dir exec cache =
    search (emits_rules, validate-Emits, copy-Emits, init_attempts-Emits) depth 12

pub init_terraform-Emits :
    (dir exec : String) (creds : Credentials) → Emits init_effects (init_terraform dir exec creds)
unfolding init_terraform
init_terraform-Emits dir exec creds =
    search (emits_rules, lock-Emits, unlock-Emits, init_locked-Emits) depth 14

init_in_apply : (x : Effect) → init_effects x ≡ true → apply_effects x ≡ true
init_in_apply Effect.observe e = refl
init_in_apply _ e = ground arith

init_in_destroy : (x : Effect) → init_effects x ≡ true → destroy_effects x ≡ true
init_in_destroy Effect.observe e = refl
init_in_destroy _ e = ground arith

init_in_plan : (x : Effect) → init_effects x ≡ true → plan_effects x ≡ true
init_in_plan Effect.observe e = refl
init_in_plan _ e = ground arith

module _ (dir exec : String) (creds : Credentials) where
  pub apply_terraform-Emits : Emits apply_effects (apply_terraform dir exec creds)
  unfolding apply_terraform
  apply_terraform-Emits = search (
    emits_rules,
    retry-Emits,
    Emits-weaken init_effects apply_effects init_in_apply,
    init_terraform-Emits,
  )

  pub destroy_terraform-Emits : Emits destroy_effects (destroy_terraform dir exec creds)
  unfolding destroy_terraform
  destroy_terraform-Emits = search (
    emits_rules,
    retry-Emits,
    Emits-weaken init_effects destroy_effects init_in_destroy,
    init_terraform-Emits,
  )

  pub plan_terraform-Emits : Emits plan_effects (plan_terraform dir exec creds)
  unfolding plan_terraform
  plan_terraform-Emits =
      search
        (
          emits_rules,
          retry-Emits,
          Emits-weaken init_effects plan_effects init_in_plan,
          init_terraform-Emits,
        )
        depth 8

-- The same for every set that has these effects.
module _ (C : Effects) (observes : C Effect.observe ≡ true) (waits : C Effect.wait ≡ true)
    (writes : C Effect.file_write ≡ true) (prepares : C Effect.tf_prepare ≡ true)
    (dir exec : String) (creds : Credentials) where
  pub apply_terraform-Emits_in :
      C Effect.tf_apply_run ≡ true → Emits C (apply_terraform dir exec creds)
  apply_terraform-Emits_in runs =
      Emits-weaken apply_effects C within _ (apply_terraform-Emits dir exec creds)
    where
      within : (x : Effect) → apply_effects x ≡ true → C x ≡ true
      within Effect.observe e = observes
      within Effect.wait e = waits
      within Effect.file_write e = writes
      within Effect.tf_prepare e = prepares
      within Effect.tf_apply_run e = runs
      within _ e = cc

  pub destroy_terraform-Emits_in :
      C Effect.tf_destroy_run ≡ true → Emits C (destroy_terraform dir exec creds)
  destroy_terraform-Emits_in runs =
      Emits-weaken destroy_effects C within _ (destroy_terraform-Emits dir exec creds)
    where
      within : (x : Effect) → destroy_effects x ≡ true → C x ≡ true
      within Effect.observe e = observes
      within Effect.wait e = waits
      within Effect.file_write e = writes
      within Effect.tf_prepare e = prepares
      within Effect.tf_destroy_run e = runs
      within _ e = cc

  pub plan_terraform-Emits_in :
      C Effect.tf_plan_run ≡ true → Emits C (plan_terraform dir exec creds)
  plan_terraform-Emits_in runs =
      Emits-weaken plan_effects C within _ (plan_terraform-Emits dir exec creds)
    where
      within : (x : Effect) → plan_effects x ≡ true → C x ≡ true
      within Effect.observe e = observes
      within Effect.wait e = waits
      within Effect.file_write e = writes
      within Effect.tf_prepare e = prepares
      within Effect.tf_plan_run e = runs
      within _ e = cc
