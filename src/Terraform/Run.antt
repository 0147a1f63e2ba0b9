-- ===== src/Terraform/Run.antt =====
-- `initTerraform` and the three commands.
use kubernetes_kops_operator.Prelude.{
  ℕ, zero, suc, ◌+◌, ◌-◌, String, ◌<>◌, Bool, true, false, not, Option, none, some, List, [], ◌∷◌,
  leb, ◌&&◌,
}
use kubernetes_kops_operator.Prelude.Dict.{Dict}
use kubernetes_kops_operator.Prelude.Text.{before_last}
use kubernetes_kops_operator.Api.Kops.{Credentials}
use kubernetes_kops_operator.Io.{
  Error, Io, pure, fail, perform, act, emit, ◌>>=◌, ◌>>◌, try, finally, choose, maybe, wrap,
  wrapping, ignoring,
}
use kubernetes_kops_operator.Outside.Call.{Call}
use kubernetes_kops_operator.Terraform.Retry.{
  is_retriable_error, contains_any, max_retries, wait_time, retry,
}
use kubernetes_kops_operator.Terraform.Cache.{
  join_path, lock_plugin_cache, unlock_plugin_cache, clean_corrupted_provider, copy_file_if_missing,
  validate_plugin_cache,
}

abbrev pub corruption_patterns : List String
corruption_patterns =
    "checksums" ∷ "does not match" ∷ "Required plugins are not installed" ∷ "cached package for"
    ∷ []

-- The loop around `terraform init`: the first sign of a corrupted cache repairs it once.
unfoldable pub init_attempts : String → ℕ → ℕ → Bool → Option Error → Io (Option Error)
init_attempts cache zero i cleaned last = pure last
init_attempts cache (suc left) i cleaned last =
    let again = init_attempts cache left (i + 1) in
    try (act Call.tf_init) (λ _. pure none)
      λ e. choose (not (is_retriable_error e)) (pure (some e)) (
        choose (leb (max_retries - 1) i) (pure (some e)) (
          choose (contains_any e.message corruption_patterns && not cleaned)
            (ignoring (clean_corrupted_provider cache "aws")
              >> (emit (Call.sleep_ms 1000) >> again true (some e)))
            (emit (Call.sleep_ms (wait_time i)) >> again cleaned (some e))))

-- `os.Getenv`
abbrev getenv : String → Io String
getenv name = do value ← perform (Call.lookup_env name); maybe value (pure "") pure

-- `filepath.Dir` of the executable's path.
abbrev exec_dir : String → String
exec_dir path = elim (before_last b'/' path) [ none ↦ "." | some dir ↦ dir ]

abbrev tf_env : Credentials → String → String → String → Dict String
tf_env creds token account cache =
    ("AWS_ACCESS_KEY_ID", creds.access_key_id)
    ∷ ("AWS_SECRET_ACCESS_KEY", creds.secret_access_key)
    ∷ ("SPOTINST_TOKEN", token)
    ∷ ("SPOTINST_ACCOUNT", account)
    ∷ ("TF_PLUGIN_CACHE_DIR", cache)
    ∷ []

-- What happens under the lock of the plugin cache.
unfoldable pub init_locked : String → String → String → Io (Unit {0})
init_locked working_dir exec_path cache = do
  ignoring (validate_plugin_cache cache)
  let shared = join_path (exec_dir exec_path) ".terraform.lock.hcl"
  let working = join_path working_dir ".terraform.lock.hcl"
  ignoring (copy_file_if_missing shared working)
  last ← init_attempts cache max_retries 0 false none
  maybe last (ignoring (copy_file_if_missing working shared))
      (λ e. fail (wrap "terraform init failed after 5 retries" e))

unfoldable pub init_terraform : String → String → Credentials → Io (Unit {0})
init_terraform working_dir exec_path creds = do
  act (Call.tf_new working_dir exec_path)
  let cache = join_path (exec_dir exec_path) "plugin-cache"
  token ← getenv "SPOTINST_TOKEN"
  account ← getenv "SPOTINST_ACCOUNT"
  act (Call.tf_set_env (tf_env creds token account cache))
  lock ← wrapping (wrap "failed to acquire plugin cache lock") (lock_plugin_cache cache)
  finally (init_locked working_dir exec_path cache)
      (emit (Call.sleep_ms 500) >> ignoring (unlock_plugin_cache lock))

unfoldable pub apply_terraform : String → String → Credentials → Io (Unit {0})
apply_terraform working_dir exec_path creds = do
  init_terraform working_dir exec_path creds
  retry "apply" (act Call.tf_apply)

unfoldable pub destroy_terraform : String → String → Credentials → Io (Unit {0})
destroy_terraform working_dir exec_path creds = do
  init_terraform working_dir exec_path creds
  retry "destroy" (act Call.tf_destroy)

-- The edits of kubernetes.tf come first; their errors are dropped.
unfoldable pub plan_terraform : String → String → Credentials → Io (Unit {0})
plan_terraform working_dir exec_path creds = do
  ignoring (act (Call.edit_plan_file (working_dir <> "/kubernetes.tf")))
  init_terraform working_dir exec_path creds
  retry "plan" (act (Call.tf_plan (working_dir <> "/plan.out")))
