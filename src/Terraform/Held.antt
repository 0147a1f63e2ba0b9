-- ===== src/Terraform/Held.antt =====
-- The file lock of the plugin cache: whether it is held, and what happens under it.
use kubernetes_kops_operator.Prelude.{
  ℕ, zero, suc, ◌+◌, String, Bool, true, false, ◌||◌, Option, [], ◌∷◌, ◌≡◌,
}
use kubernetes_kops_operator.Io.{Error, Result, ok, World, History}
use kubernetes_kops_operator.Io.Adds.{Only, only_rules}
use kubernetes_kops_operator.Io.Count.{discard}
use kubernetes_kops_operator.Outside.Call.{Call}
use kubernetes_kops_operator.Terraform.Cache.{
  clean_corrupted_provider, copy_file_if_missing, validate_plugin_cache, visit_cached_file,
}
use kubernetes_kops_operator.Terraform.Run.{init_attempts, init_locked}

abbrev pub succeeded : Result (Unit {0}) → Bool
succeeded (ok _) = true
succeeded _ = false

-- Whether the lock of the plugin cache is held: it was taken with success, and not given back since. A file
-- that fails to unlock is closed, which gives it back too.
abbrev pub cache_held : World → History → Bool
cache_held w [] = false
cache_held w (Call.flock_exclusive p ∷ h) =
    succeeded (discard (w.answer h (Call.flock_exclusive p))) || cache_held w h
cache_held w (Call.flock_unlock p ∷ h) = false
cache_held w (_ ∷ h) = cache_held w h

-- `terraform init` ran only while the lock was held.
abbrev pub Serial : World → History → Type 0
Serial w [] = Unit
Serial w (Call.tf_init ∷ h) = (cache_held w h ≡ true) × Serial w h
Serial w (_ ∷ h) = Serial w h

-- The lock is held, or free, as the flag says, and every run was under it.
abbrev pub CacheLock : World → Bool → History → Type 0
CacheLock w b h = (cache_held w h ≡ b) × Serial w h

-- What may happen inside of the lock, and outside of it.
abbrev pub inside : Call → Bool
inside (Call.flock_exclusive p) = false
inside (Call.flock_unlock p) = false
inside _ = true

abbrev pub outside : Call → Bool
outside Call.tf_init = false
outside c = inside c

abbrev pub Inside : Call → Type 0
Inside c = inside c ≡ true

abbrev pub Outside : Call → Type 0
Outside c = outside c ≡ true

pub held-Inside :
    (w : World) (c : Call) (l : History) → Inside c → CacheLock w true l → CacheLock w true (c ∷ l)
held-Inside w (Call.flock_exclusive p) l g q = cc
held-Inside w (Call.flock_unlock p) l g q = cc
held-Inside w Call.tf_init l g q = (q.0, (q.0, q.1))
held-Inside w _ l g q = q

pub free-Outside :
    (w : World) (c : Call) (l : History)
    → Outside c
    → CacheLock w false l
    → CacheLock w false (c ∷ l)
free-Outside w (Call.flock_exclusive p) l g q = cc
free-Outside w (Call.flock_unlock p) l g q = cc
free-Outside w Call.tf_init l g q = cc
free-Outside w _ l g q = q

pub copy-Only : (src dst : String) → Only Inside (copy_file_if_missing src dst)
unfolding copy_file_if_missing
copy-Only src dst = search only_rules depth 10

pub validate-Only : (cache : String) → Only Inside (validate_plugin_cache cache)
unfolding validate_plugin_cache visit_cached_file
validate-Only cache = search only_rules depth 14

pub clean-Only : (cache provider : String) → Only Inside (clean_corrupted_provider cache provider)
unfolding clean_corrupted_provider
clean-Only cache provider = search only_rules depth 14

pub init_attempts-Only :
    (cache : String) (left i : ℕ) (cleaned : Bool) (last : Option Error)
    → Only Inside (init_attempts cache left i cleaned last)
unfolding init_attempts
init_attempts-Only cache zero i cleaned last = search only_rules
init_attempts-Only cache (suc left) i cleaned last =
    search (only_rules, clean-Only, init_attempts-Only cache left (i + 1)) depth 14

pub init_locked-Only : (dir exec cache : String) → Only Inside (init_locked dir exec cache)
unfolding init_locked
init_locked-Only dir exec cache =
    search (only_rules, validate-Only, copy-Only, init_attempts-Only) depth 14
