-- ===== src/Io/Count.antt =====
-- How often a kind of call stands in a history, and how long it waits.
use kubernetes_kops_operator.Prelude.{
  ℕ, ◌+◌, ◌≡◌, refl, Bool, true, false, [], ◌∷◌, if◌then◌else◌, arith,
}
use kubernetes_kops_operator.Io.{Result, ok, err, panic, World, History, act}
use kubernetes_kops_operator.Io.Emits.{Extends, same, more}
use kubernetes_kops_operator.Outside.Call.{Call}
use kubernetes_kops_operator.Outside.Effect.{Effects, effect}

-- The number of calls that `p` picks.
abbrev pub count : (Call → Bool) → History → ℕ
count p [] = 0
count p (c ∷ h) = (if p c then 1 else 0) + count p h

abbrev pub pause : Call → ℕ
pause (Call.sleep_ms n) = n
pause _ = 0

-- The milliseconds slept.
abbrev pub waited : History → ℕ
waited [] = 0
waited (c ∷ h) = pause c + waited h

-- A kind of call that the action cannot make is counted as before.
pub count-Extends :
    (p : Call → Bool) (C : Effects)
    → ((c : Call) → C (effect c) ≡ true → p c ≡ false)
    → {h k : History} → Extends C h k
    → count p k ≡ count p h
count-Extends p C no_p same = refl
count-Extends p C no_p (more {k = k} c e q) = ground (arith, no_p c e, count-Extends p C no_p q)

abbrev pub discard : {A : Type 0} → Result A → Result (Unit {0})
discard (ok a) = ok tt
discard (err e) = err e
discard panic = panic

pub act_run : (c : Call) (w : World) (h : History) → act c w h ≡ (discard (w.answer h c), c ∷ h)
unfolding act
act_run c w h = ground arith
