-- ===== src/Terraform/Cache.antt =====
-- The plugin cache shared by the workers: its file lock, its validation and its repair.
use kubernetes_kops_operator.Prelude.{String, ◌<>◌, not, List, [], ◌∷◌, ◌==◌, ◌&&◌, eqb, ◌||◌}
use kubernetes_kops_operator.Io.{
  Io, pure, fail, perform, act, ◌>>=◌, ◌>>◌, try, when, choose, for_each, wrap, wrapping,
}
use kubernetes_kops_operator.Outside.Call.{Call, FileInfo}

-- `filepath.Join` of clean parts.
abbrev pub join_path : String → String → String
join_path dir name = dir <> "/" <> name

unfoldable pub lock_plugin_cache : String → Io String
lock_plugin_cache cache = do
  act (Call.mkdir_all cache)
  let lock = join_path cache ".terraform-plugin.lock"
  wrapping (wrap "failed to open lock file") (act (Call.create_file lock))
  wrapping (wrap "failed to acquire exclusive lock") (act (Call.flock_exclusive lock))
  pure lock

unfoldable pub unlock_plugin_cache : String → Io (Unit {0})
unlock_plugin_cache lock =
    wrapping (wrap "failed to unlock plugin cache") (act (Call.flock_unlock lock))

-- The two paths of the source are the same text once joined.
abbrev pub provider_paths : String → String → List String
provider_paths cache provider =
    join_path cache (join_path "registry.terraform.io" (join_path "hashicorp" provider))
    ∷ join_path cache (join_path "registry.terraform.io/hashicorp" provider)
    ∷ []

unfoldable pub clean_corrupted_provider : String → String → Io (Unit {0})
clean_corrupted_provider cache provider = when (not (cache == "" || provider == "")) (
    for_each (provider_paths cache provider) λ path.
      try (act (Call.stat path))
        (λ _.
          wrapping (wrap ("failed to remove corrupted provider at " <> path))
            (act (Call.remove_all path)))
        (λ _. pure tt))

-- The file is copied only where `dst` is missing and `src` is there.
unfoldable pub copy_file_if_missing : String → String → Io (Unit {0})
copy_file_if_missing src dst =
    try (act (Call.stat dst)) (λ _. pure tt)
      λ _.
        try (perform (Call.read_file src)) (λ content. act (Call.write_file dst content))
          λ e. choose e.not_found (pure tt) (fail e)

-- One file of the walk: the folder of an empty executable is removed.
unfoldable pub visit_cached_file : FileInfo → Io (Unit {0})
visit_cached_file info =
    when (not info.is_dir && info.is_executable && eqb info.size 0) (act (Call.remove_all info.dir))

unfoldable pub validate_plugin_cache : String → Io (Unit {0})
unfolding visit_cached_file
validate_plugin_cache cache = when (not (cache == "")) do
  let registry = join_path cache "registry.terraform.io"
  let walk = perform (Call.walk_files registry) >>= (λ files. for_each files visit_cached_file)
  try (act (Call.stat registry)) (λ _. walk) (λ e. choose e.not_found (pure tt) walk)
