-- ===== src/Terraform/Retry.antt =====
-- The retry loops of `ApplyTerraform`, `PlanTerraform` and `DestroyTerraform`, which differ only in
-- the command, and `isRetriableError`.
use kubernetes_kops_operator.Prelude.{
  ℕ, zero, suc, ◌+◌, ◌*◌, ◌^◌, String, Bool, not, Option, none, some, List, [], ◌∷◌, leb, ◌||◌,
  false, ◌-◌, ◌<>◌,
}
use kubernetes_kops_operator.Prelude.Text.{contains_text}
use kubernetes_kops_operator.Io.{Error, Io, pure, fail, emit, ◌>>=◌, ◌>>◌, try, choose, maybe, wrap}
use kubernetes_kops_operator.Outside.Call.{Call}

abbrev pub retriable_patterns : List String
retriable_patterns =
    "text file busy" ∷ "checksums" ∷ "does not match" ∷ "Required plugins are not installed"
    ∷ "cached package for" ∷ []

pub contains_any : String → List String → Bool
contains_any s [] = false
contains_any s (t ∷ ts) = contains_text s t || contains_any s ts

unfoldable pub is_retriable_error : Error → Bool
unfolding contains_any
is_retriable_error e = contains_any e.message retriable_patterns

abbrev pub max_retries : ℕ
max_retries = 5

-- `time.Duration(1<<uint(i)) * time.Second`, in milliseconds.
abbrev pub wait_time : ℕ → ℕ
wait_time i = 2 ^ i * 1000

-- The loop, from round `i` on with `left` rounds to go. It returns the error that it stopped with.
unfoldable pub attempts : Io (Unit {0}) → ℕ → ℕ → Option Error → Io (Option Error)
attempts run zero i last = pure last
attempts run (suc left) i last =
    try run (λ _. pure none)
      λ e. choose (not (is_retriable_error e)) (pure (some e)) (
        choose (leb (max_retries - 1) i) (pure (some e))
          (emit (Call.sleep_ms (wait_time i)) >> attempts run left (i + 1) (some e)))

-- The loop and the test that follows it. `name` is the command's name in the message.
unfoldable pub retry : String → Io (Unit {0}) → Io (Unit {0})
retry name run = do
  last ← attempts run max_retries 0 none
  maybe last (pure tt) (λ e. fail (wrap ("terraform " <> name <> " failed after 5 retries") e))
