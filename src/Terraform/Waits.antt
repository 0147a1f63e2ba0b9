-- ===== src/Terraform/Waits.antt =====
-- How long the retries of a terraform command wait.
use kubernetes_kops_operator.Prelude.{
  Bool, true, false, ◌+◌, ◌≤◌, ◌≡◌, refl, String, Option, none, some, arith,
}
use kubernetes_kops_operator.Io.{Error, Result, ok, err, panic, World, History, act}
use kubernetes_kops_operator.Io.Count.{waited, pause}
use kubernetes_kops_operator.Outside.Call.{Call}
use kubernetes_kops_operator.Terraform.Retry.{attempts, retry, max_retries}
use kubernetes_kops_operator.Terraform.Laws.{attempts-waited-le, closing, retry-closing}

-- Whether a call is more than a pause.
abbrev pub acts : Call → Bool
acts (Call.sleep_ms n) = false
acts _ = true

instant : (c : Call) → acts c ≡ true → pause c ≡ 0
instant (Call.sleep_ms n) e = cc
instant _ e = refl

module _ (c : Call) (w : World) (name : String) (a : acts c ≡ true) (h : History) where
  closing-waited-le :
      (r : Result (Option Error) × History)
      → waited r.1 + 1000 ≤ waited h + 16000
      → waited (closing c w acts a (λ n. refl) name r).1 ≤ waited h + 15000
  closing-waited-le (ok none, k) b = omega arith
  closing-waited-le (ok (some e), k) b = omega arith
  closing-waited-le (err e, k) b = omega arith
  closing-waited-le (panic, k) b = omega arith

-- The retries of a command, which is not itself a pause, wait for at most fifteen seconds in all, whatever
-- the command answers.
pub retry-waited-le :
    (name : String) (c : Call)
    → acts c ≡ true
    → (w : World) (h : History) → waited (retry name (act c) w h).1 ≤ waited h + 15000
retry-waited-le name c a w h = rw (retry-closing c w acts a (λ n. refl) name h) (
    closing-waited-le c w name a h (attempts (act c) max_retries 0 none w h)
      (attempts-waited-le c w (instant c a) 4 0 none h refl))
