-- ===== src/Terraform/Removes.antt =====
-- What the cleanup of a terraform directory removes.
use kubernetes_kops_operator.Prelude.{String, Bool, true, false, not, ◌≡◌, refl, arith}
use kubernetes_kops_operator.Io.{World, History}
use kubernetes_kops_operator.Io.Adds.{
  Adds, Only, Only-bind, Only-perform, Only-for_each, Only-when, Only-act,
}
use kubernetes_kops_operator.Outside.Call.{Call}
use kubernetes_kops_operator.Terraform.Cache.{join_path}
use kubernetes_kops_operator.Terraform.Files.{cleanup_terraform_directory}
use text.Mathlib.Text.{starts_with}

-- The calls that a cleanup may make: to list the directory, and to remove a path in it whose name does not
-- start with `.terraform`.
abbrev pub Removes : String → Call → Type 0
Removes dir (Call.remove_all path) =
    (name : String) × (path ≡ join_path dir name) × (starts_with name ".terraform" ≡ false)
Removes dir (Call.read_dir path) = path ≡ dir
Removes dir _ = ⊥

not-true : (b : Bool) → not b ≡ true → b ≡ false
not-true true e = ground arith
not-true false e = refl

cleanup-Only : (dir : String) → Only (Removes dir) (cleanup_terraform_directory dir)
unfolding cleanup_terraform_directory
cleanup-Only dir = Only-bind _ _ (Only-perform (Call.read_dir dir) refl) λ names.
    Only-for_each names _ λ name. Only-when (not (starts_with name ".terraform")) _ λ e.
      Only-act (Call.remove_all (join_path dir name))
        (name, refl, not-true (starts_with name ".terraform") e)

-- The cleanup lists the directory and removes only what lies in it and has a name that does not start with
-- `.terraform`: the lock file and the plugins stay.
pub cleanup-Removes :
    (dir : String) (w : World) (h : History)
    → Adds (Removes dir) h (cleanup_terraform_directory dir w h).1
cleanup-Removes dir = (cleanup-Only dir).at
