-- ===== src/Terraform/Laws.antt =====
-- Lemmas on the loop of `ApplyTerraform`, `PlanTerraform` and `DestroyTerraform`: its runs, its pauses, and
-- what it knows when it stops.
use kubernetes_kops_operator.Prelude.{
  ℕ, zero, suc, ◌+◌, ◌≤◌, ◌<◌, ◌≡◌, refl, ◌⊎◌, inl, inr, Bool-cases, String, ◌<>◌, Bool, true,
  false, Option, none, some, ◌∷◌, arith, ◌-◌, leb, ◌||◌, not, if◌then◌else◌,
}
use native.Mathlib.Numerals.{towards_suc}
use kubernetes_kops_operator.Io.{
  Error, Result, ok, err, panic, World, History, act, ◌>>=◌, try, pure, fail, emit, wrap, ◌>>◌,
  choose, continue, maybe, recover,
}
use kubernetes_kops_operator.Io.Count.{count, waited, pause, act_run, discard}
use kubernetes_kops_operator.Outside.Call.{Call}
use kubernetes_kops_operator.Terraform.Retry.{
  is_retriable_error, attempts, retry, max_retries, wait_time,
}

pow_next : (i : ℕ) → wait_time (i + 1) ≡ wait_time i + wait_time i
pow_next i = simp towards_suc (omega arith)

wait_time-le : (i : ℕ) → i ≤ 4 → wait_time i ≤ 16000
wait_time-le zero b = omega arith
wait_time-le (suc zero) b = omega arith
wait_time-le (suc (suc zero)) b = omega arith
wait_time-le (suc (suc (suc zero))) b = omega arith
wait_time-le (suc (suc (suc (suc zero)))) b = omega arith
wait_time-le (suc (suc (suc (suc (suc i))))) b = absurd (omega arith)

module _ (c : Call) (w : World) where
  -- One round of the loop, by what the command answered.
  abbrev round : ℕ → ℕ → History → Result (Unit {0}) → Result (Option Error) × History
  round left i h (ok a) = (ok none, c ∷ h)
  round left i h panic = (panic, c ∷ h)
  round left i h (err e) =
      let rest = attempts (act c) left (i + 1) (some e) w (Call.sleep_ms (wait_time i) ∷ c ∷ h) in
      if not (is_retriable_error e) || leb (max_retries - 1) i then (ok (some e), c ∷ h) else rest

  attempts_step :
      (left i : ℕ) (last : Option Error) (h : History)
      → attempts (act c) (suc left) i last w h ≡ round left i h (discard (w.answer h c))
  unfolding attempts try pure emit ◌>>=◌
  attempts_step left i last h = rw (act_run c w h) (go (discard (w.answer h c)))
    where
      go :
          (r : Result (Unit {0}))
          → recover
              (r, c ∷ h)
              w
              (λ _. pure none)
              (λ e. choose (not (is_retriable_error e)) (pure (some e)) (
                choose
                  (leb (max_retries - 1) i)
                  (pure (some e))
                  (emit (Call.sleep_ms (wait_time i)) >> attempts (act c) left (i + 1) (some e))))
            ≡ round left i h r
      go (ok a) = refl
      go panic = refl
      go (err e) = ground arith

  module _ (p : Call → Bool) (runs : p c ≡ true)
      (pauses : (n : ℕ) → p (Call.sleep_ms n) ≡ false) where
    round-count-le :
        (left i : ℕ) (h : History) (r : Result (Unit {0}))
        → ((e : Error) (k : History)
            → count p (attempts (act c) left (i + 1) (some e) w k).1 ≤ count p k + left)
        → count p (round left i h r).1 ≤ count p h + suc left
    round-count-le left i h (ok a) ih = ground arith
    round-count-le left i h panic ih = ground arith
    round-count-le left i h (err e) ih =
        ground (arith, pauses (wait_time i), ih e (Call.sleep_ms (wait_time i) ∷ c ∷ h))

    pub attempts-count-le :
        (left i : ℕ) (last : Option Error) (h : History)
        → count p (attempts (act c) left i last w h).1 ≤ count p h + left
    unfolding attempts pure
    attempts-count-le zero i last h = omega arith
    attempts-count-le (suc left) i last h =
        rw (attempts_step left i last h)
          (round-count-le left i h _ (λ e k. attempts-count-le left (i + 1) (some e) k))

  module _ (instant : pause c ≡ 0) where
    round-waited-le :
        (left i : ℕ) (h : History) (r : Result (Unit {0}))
        → i + suc left ≡ max_retries
        → ((e : Error) (k : History)
            → i < 4
            → waited (attempts (act c) left (i + 1) (some e) w k).1 + wait_time (i + 1)
              ≤ waited k + 16000)
        → waited (round left i h r).1 + wait_time i ≤ waited h + 16000
    round-waited-le left i h (ok a) b ih = omega (arith, instant, wait_time-le i)
    round-waited-le left i h panic b ih = omega (arith, instant, wait_time-le i)
    round-waited-le left i h (err e) b ih =
        ground
          (arith, instant, wait_time-le i, pow_next i, ih e (Call.sleep_ms (wait_time i) ∷ c ∷ h))

    -- The pauses of rounds `i` to 3 are 2^i, …, 8 seconds.
    pub attempts-waited-le :
        (left i : ℕ) (last : Option Error) (h : History)
        → i + suc left ≡ max_retries
        → waited (attempts (act c) (suc left) i last w h).1 + wait_time i ≤ waited h + 16000
    attempts-waited-le zero i last h b =
        rw (attempts_step zero i last h)
          (round-waited-le zero i h _ b (λ e k lt. absurd (omega arith)))
    attempts-waited-le (suc left) i last h b = rw (attempts_step (suc left) i last h) (
        round-waited-le (suc left) i h _ b
          (λ e k lt. attempts-waited-le left (i + 1) (some e) k (omega arith)))

  -- What the loop knows when it stops.
  abbrev pub Stopped : (Call → Bool) → ℕ → History → Result (Option Error) × History → Type 0
  Stopped p left h (ok none, k) = (j : History) × (k ≡ c ∷ j) × (discard (w.answer j c) ≡ ok tt)
  Stopped p left h (ok (some e), k) =
      (j : History) × (k ≡ c ∷ j)
      × (discard (w.answer j c) ≡ err e)
      × ((is_retriable_error e ≡ false) ⊎ (count p k ≡ count p h + left))
  Stopped p left h (err e, k) = ⊥
  Stopped p left h (panic, k) = Unit

  module _ (p : Call → Bool) (runs : p c ≡ true)
      (pauses : (n : ℕ) → p (Call.sleep_ms n) ≡ false) where
    Stopped-later :
        (left : ℕ) (h k : History)
        → count p k ≡ count p h + 1
        → (r : Result (Option Error) × History) → Stopped p left k r
        → Stopped p (suc left) h r
    Stopped-later left h k e (ok none, l) s = s
    Stopped-later left h k e (ok (some x), l) (j, q, a, inl s) = (j, q, a, inl s)
    Stopped-later left h k e (ok (some x), l) (j, q, a, inr s) = (j, q, a, inr (omega arith))
    Stopped-later left h k e (err x, l) s = s
    Stopped-later left h k e (panic, l) s = s

    round-Stopped :
        (left i : ℕ) (h : History) (r : Result (Unit {0}))
        → discard (w.answer h c) ≡ r
        → i + suc left ≡ max_retries
        → ((e : Error) (k : History)
            → i < 4
            → Stopped p left k (attempts (act c) left (i + 1) (some e) w k))
        → Stopped p (suc left) h (round left i h r)
    round-Stopped left i h (ok a) q b ih = (h, refl, q)
    round-Stopped left i h panic q b ih = tt
    round-Stopped left i h (err e) q b ih =
        elim (Bool-cases (not (is_retriable_error e) || leb (max_retries - 1) i)) [
          | inl stops ↦ rw stops (h, refl, q, ground arith)
          | inr goes ↦ rw goes (
              Stopped-later left h (Call.sleep_ms (wait_time i) ∷ c ∷ h)
                (ground (arith, pauses (wait_time i))) _
                (ih e (Call.sleep_ms (wait_time i) ∷ c ∷ h) (ground arith)))
        ]

    pub attempts-Stopped :
        (left i : ℕ) (last : Option Error) (h : History)
        → i + suc left ≡ max_retries
        → Stopped p (suc left) h (attempts (act c) (suc left) i last w h)
    attempts-Stopped zero i last h b =
        rw (attempts_step zero i last h)
          (round-Stopped zero i h _ refl b (λ e k lt. absurd (omega arith)))
    attempts-Stopped (suc left) i last h b = rw (attempts_step (suc left) i last h) (
        round-Stopped (suc left) i h _ refl b
          (λ e k lt. attempts-Stopped left (i + 1) (some e) k (omega arith)))

    -- `retry` by what its loop returned.
    abbrev pub closing : String → Result (Option Error) × History → Result (Unit {0}) × History
    closing name (ok none, k) = (ok tt, k)
    closing name (ok (some e), k) =
        (err (wrap ("terraform " <> name <> " failed after 5 retries") e), k)
    closing name (err e, k) = (err e, k)
    closing name (panic, k) = (panic, k)

    pub retry-closing :
        (name : String) (h : History)
        → retry name (act c) w h ≡ closing name (attempts (act c) max_retries 0 none w h)
    unfolding retry ◌>>=◌
    retry-closing name h = go (attempts (act c) max_retries 0 none w h)
      where
        go :
            (r : Result (Option Error) × History)
            → continue r w (λ last.
              maybe last
                (pure tt)
                (λ e. fail (wrap ("terraform " <> name <> " failed after 5 retries") e)))
              ≡ closing name r
        go (ok none, k) = refl
        go (ok (some e), k) = refl
        go (err e, k) = refl
        go (panic, k) = refl
