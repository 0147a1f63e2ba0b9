-- ===== src/Entry/Start.antt =====
-- `main` of main.go: the settings, the terraform executable, the reconciler, and the manager or a dry run.
use kubernetes_kops_operator.Prelude.{String, ◌<>◌, Bool, true, false, not, none, ◌≡◌, refl, arith}
use kubernetes_kops_operator.Prelude.Int.{ℤ, atoi}
use kubernetes_kops_operator.Io.{
  World, History, Io, pure, fail, perform, act, ask, ◌>>=◌, ◌>>◌, choose, maybe, try, error,
}
use kubernetes_kops_operator.Io.Emits.{Extends, Emits, emits_rules, same, more}
use kubernetes_kops_operator.Io.Preserves.{Keeping, Preserves, Preserves-bind, Preserves-Emits}
use kubernetes_kops_operator.Outside.Call.{Call}
use kubernetes_kops_operator.Outside.Effect.{Effect, Effects, effect}
use kubernetes_kops_operator.Controller.Body.{Reconciler}
use kubernetes_kops_operator.Controller.Safety.{Free, keeps_Free}
use kubernetes_kops_operator.Controller.Lock.{free_effects}
use kubernetes_kops_operator.Controller.DryRun.{dry_effects}
use kubernetes_kops_operator.Entry.{run_dry, run_dry-Extends, run_dry-Free}

-- The flags of the command line.
pub record Flags : Type 0 where
  pub metrics_addr : String
  pub probe_addr : String
  pub enable_leader_election : Bool
  pub controller_class : String
  pub dry_run : Bool
  pub cluster : String

abbrev pub default_flags : Flags
default_flags = record {
  metrics_addr = ":8080";
  probe_addr = ":8081";
  enable_leader_election = false;
  controller_class = "";
  dry_run = false;
  cluster = "";
}

abbrev pub default_aws_provider_version : String
default_aws_provider_version = "6.13.0"

abbrev pub default_terraform_version : String
default_terraform_version = "1.5.7"

abbrev pub default_worker_count : String
default_worker_count = "5"

-- `os.LookupEnv` with a default. A variable that is set to the empty text is set.
unfoldable pub env_or : String → String → Io String
env_or name default = perform (Call.lookup_env name) >>= λ value. maybe value (pure default) pure

-- The folder of the terraform executable, made where it is missing.
unfoldable pub make_terraform_dir : String → Io (Unit {0})
make_terraform_dir path =
    try (act (Call.stat path)) pure λ e. choose e.not_found (act (Call.mkdir path)) (fail e)

unfoldable pub worker_count : String → Io ℤ
worker_count text = maybe (atoi text) (fail (error "unable to convert WORKER_COUNT variable")) pure

abbrev pub reconciler_of : Flags → String → String → Reconciler
reconciler_of flags exec_path aws_provider_version = record {
  controller_class = flags.controller_class;
  cluster = flags.cluster;
  tf_exec_path = exec_path;
  dry_run = flags.dry_run;
  aws_provider_version = aws_provider_version;
  ctx_reader = false;
  ctx_kcp = none;
}

-- `SetupWithManager`: the controller for the class, with so many workers.
unfoldable pub setup_with_manager : Reconciler → ℤ → Io (Unit {0})
setup_with_manager r workers = act (Call.complete_controller r.controller_class workers)

-- All before the manager starts: the terraform executable and the version of the AWS provider, for the reconciler.
-- `os.Exit(1)` is an error.
unfoldable pub prepare : Flags → Io (String × String)
unfolding env_or make_terraform_dir worker_count setup_with_manager
prepare flags = do
  aws_provider_version ← env_or "AWS_PROVIDER_VERSION" default_aws_provider_version
  terraform_version ← env_or "TERRAFORM_VERSION" default_terraform_version
  act (Call.new_manager flags.metrics_addr flags.probe_addr flags.enable_leader_election)
  product ← ask (λ w. w.terraform_product)
  let path = "/tmp/" <> (product <> ("_" <> terraform_version))
  make_terraform_dir path
  exec_path ← perform (Call.install_terraform terraform_version path)
  count ← env_or "WORKER_COUNT" default_worker_count
  workers ← worker_count count
  setup_with_manager (reconciler_of flags exec_path aws_provider_version) workers
  act (Call.add_check "healthz")
  act (Call.add_check "readyz")
  pure (exec_path, aws_provider_version)

unfoldable pub main : Flags → Io (Unit {0})
unfolding prepare
main flags = prepare flags >>= λ (exec_path, aws_provider_version).
    choose (not flags.dry_run) (act Call.start_manager)
      (run_dry (reconciler_of flags exec_path aws_provider_version))

abbrev preparing_effects : Effects
preparing_effects Effect.observe = true
preparing_effects Effect.file_write = true
preparing_effects _ = false

env_or-Emits : (name default : String) → Emits preparing_effects (env_or name default)
unfolding env_or
env_or-Emits name default = search emits_rules depth 8

make_terraform_dir-Emits : (path : String) → Emits preparing_effects (make_terraform_dir path)
unfolding make_terraform_dir
make_terraform_dir-Emits path = search emits_rules depth 8

worker_count-Emits : (text : String) → Emits preparing_effects (worker_count text)
unfolding worker_count
worker_count-Emits text = search emits_rules depth 8

setup_with_manager-Emits :
    (r : Reconciler) (workers : ℤ) → Emits preparing_effects (setup_with_manager r workers)
unfolding setup_with_manager
setup_with_manager-Emits r workers = search emits_rules depth 8

prepare-Emits : (flags : Flags) → Emits preparing_effects (prepare flags)
unfolding prepare
prepare-Emits flags =
    search
      (
        emits_rules, env_or-Emits, make_terraform_dir-Emits, worker_count-Emits,
        setup_with_manager-Emits,
      )
      depth 20

dry_preparing : (h : History) → Keeping (Extends dry_effects h) preparing_effects
dry_preparing h c k e p = more c (is_dry (effect c) e) p
  where
    is_dry : (x : Effect) → preparing_effects x ≡ true → dry_effects x ≡ true
    is_dry Effect.observe e = refl
    is_dry Effect.file_write e = refl
    is_dry _ e = ground arith

Free-preparing : Keeping Free preparing_effects
Free-preparing c h e p = keeps_Free c h (is_free (effect c) e) p
  where
    is_free : (x : Effect) → preparing_effects x ≡ true → free_effects x ≡ true
    is_free Effect.observe e = refl
    is_free Effect.file_write e = refl
    is_free _ e = ground arith

module _ {H : History → Type 0} (preparing : Keeping H preparing_effects) (flags : Flags)
    (dry : flags.dry_run ≡ true)
    (each : (r : Reconciler) → r.dry_run ≡ true → Preserves H (run_dry r)) where
  planned :
      (b : Bool)
      → b ≡ true
      → (m n : Io (Unit {0})) → Preserves H n
      → Preserves H (choose (not b) m n)
  planned true e m n p = p
  planned false e m n p = cc

  main-Preserves : Preserves H (main flags)
  unfolding main
  main-Preserves =
      Preserves-bind (prepare flags) _
        (Preserves-Emits preparing_effects _ preparing (prepare-Emits flags))
        λ (exec_path, version).
          planned flags.dry_run dry _ _ (each (reconciler_of flags exec_path version) dry)

-- The program with the flag of a dry run, whatever it meets: it never starts the manager, each call that it makes
-- has an effect in `dry_effects`, and if the mutex was free at its start, it is free at its end.
pub main-dry :
    (flags : Flags)
    → flags.dry_run ≡ true
    → (w : World) (h : History) → Free h
    → Extends dry_effects h (main flags w h).1 × Free (main flags w h).1
main-dry flags dry w h free = (
  (main-Preserves {H = Extends dry_effects h} (dry_preparing h) flags dry
        (λ r d. run_dry-Extends r d h)).at
      w h same,
  (main-Preserves {H = Free} Free-preparing flags dry (λ r d. run_dry-Free r)).at w h free,
)
