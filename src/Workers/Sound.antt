-- ===== src/Workers/Sound.antt =====
-- The invariant of the workers: each obeys the mutex, as the one who holds it or not.
use kubernetes_kops_operator.Prelude.{
  ℕ, zero, suc, Bool, true, false, Option, none, some, List, [], ◌∷◌, ◌≡◌, refl, sym, inl, inr, eqb,
  ◌≢◌, arith, Bool-cases,
}
use mathlib.Core.Path.{subst}
use kubernetes_kops_operator.Api.Meta.{ObjectKey}
use kubernetes_kops_operator.Io.{World}
use kubernetes_kops_operator.Outside.Call.{Call}
use kubernetes_kops_operator.Controller.Body.{Reconciler}
use kubernetes_kops_operator.Controller.Lock.{after, permitted}
use kubernetes_kops_operator.Workers.{
  System, pending, advance, MutexOp, locks, unlocks, leaves, mutex_op, moved, make, take_turn, turn,
  Turns, none_yet, one_more, start,
}
use kubernetes_kops_operator.Workers.Obeys.{Obeys, serve-Obeys}

abbrev pub owns : Option ℕ → ℕ → Bool
owns none i = false
owns (some j) i = eqb j i

abbrev pub Sound : Option ℕ → List (List Call) → Type 0
Sound owner ws = (i : ℕ) → Obeys (owns owner i) (pending ws i)

-- What a call may find and leaves, by what it does to the mutex.
abbrev pub Allowed : MutexOp → Bool → Bool → Type 0
Allowed locks b c = (b ≡ false) × (c ≡ true)
Allowed unlocks b c = (b ≡ true) × (c ≡ false)
Allowed leaves b c = c ≡ b

pub permitted-Allowed :
    (c : Call) (b : Bool) → permitted c b ≡ true → Allowed (mutex_op c) b (after c b)
permitted-Allowed Call.mux_lock true e = cc
permitted-Allowed Call.mux_lock false e = (refl, refl)
permitted-Allowed Call.mux_unlock b e = (e, refl)
permitted-Allowed _ b e = refl

module _ {l : List Call} {c : Call} where
  pub pending-advance :
      (ws : List (List Call)) (i : ℕ) → pending ws i ≡ c ∷ l → pending (advance ws i) i ≡ l
  pending-advance [] i e = cc
  pending-advance (m ∷ ws) zero e = rw e refl
  pending-advance (m ∷ ws) (suc i) e = pending-advance ws i e

pub pending-advance_other :
    (ws : List (List Call)) (i j : ℕ) → i ≢ j → pending (advance ws i) j ≡ pending ws j
pending-advance_other [] i j n = refl
pending-advance_other (m ∷ ws) zero zero n = absurd (n refl)
pending-advance_other (m ∷ ws) zero (suc j) n = refl
pending-advance_other (m ∷ ws) (suc i) zero n = refl
pending-advance_other (m ∷ ws) (suc i) (suc j) n = pending-advance_other ws i j (λ e. n (rw e refl))

-- Worker `i` goes from holding `b` to holding `c`, and for the others nothing changes.
module _ (before later : Option ℕ) (ws : List (List Call)) (i : ℕ) (c : Call) (l : List Call)
    (at : pending ws i ≡ c ∷ l) (sound : Sound before ws)
    (own : owns later i ≡ after c (owns before i))
    (others : (j : ℕ) → i ≢ j → owns later j ≡ owns before j) where
  mover : Obeys (owns later i) (pending (advance ws i) i)
  mover =
      let o : Obeys (owns before i) (c ∷ l) = subst (Obeys (owns before i)) at (sound i) in
      rw (own, pending-advance ws i at) o.1

  onlooker : (j : ℕ) → i ≢ j → Obeys (owns later j) (pending (advance ws i) j)
  onlooker j n = rw (others j n, pending-advance_other ws i j n) (sound j)

  advance-Sound : Sound later (advance ws i)
  advance-Sound j = elim (Bool-cases (eqb i j)) [
    | inl e ↦
        let same : i ≡ j = ground arith in
        subst (λ k. Obeys (owns later k) (pending (advance ws i) k)) same mover
    | inr e ↦ onlooker j (λ q. ground arith)
  ]

-- A turn that moves: the lists advance, the worker holds the mutex as its call says, and nobody else's hold
-- changes.
abbrev Moved : Option ℕ → ℕ → Bool → List (List Call) → System → Type 0
Moved owner i c ws t =
    (t.workers ≡ ws) × (owns t.owner i ≡ c) × ((j : ℕ) → i ≢ j → owns t.owner j ≡ owns owner j)

other_than : (i j : ℕ) → i ≢ j → eqb i j ≡ false
other_than i j n = ground arith

make-Moved :
    (op : MutexOp) (b c : Bool) (owner : Option ℕ) (i : ℕ) (ws : List (List Call)) (t : System)
    → owns owner i ≡ b
    → Allowed op b c
    → make op i owner ws ≡ moved t
    → Moved owner i c ws t
make-Moved locks b c none i ws t o a e =
    let q : record { owner = some i; workers = ws } ≡ t = cc in
    subst (Moved none i c ws) q (refl, ground arith, λ j n. other_than i j n)
make-Moved locks b c (some k) i ws t o a e = cc
make-Moved unlocks b c none i ws t o a e = cc
make-Moved unlocks b c (some k) i ws t o a e =
    let q : record { owner = none; workers = ws } ≡ t = cc in
    subst (Moved (some k) i c ws) q
      (refl, cc, λ j n. let k_is : k ≡ i = ground arith in sym (rw k_is (other_than i j n)))
make-Moved leaves b c owner i ws t o a e =
    let q : record { owner = owner; workers = ws } ≡ t = cc in
    subst (Moved owner i c ws) q (refl, cc, λ j n. refl)

turn_from :
    (s : System) (i : ℕ) (t : System) (l : List Call)
    → pending s.workers i ≡ l
    → Sound s.owner s.workers
    → take_turn l i s.owner (advance s.workers i) ≡ moved t
    → Sound t.owner t.workers
turn_from s i t [] at sound e = cc
turn_from s i t (c ∷ l) at sound e =
    let o : Obeys (owns s.owner i) (c ∷ l) = subst (Obeys (owns s.owner i)) at (sound i) in
    let (w, own, others) =
      make-Moved (mutex_op c) (owns s.owner i) (after c (owns s.owner i)) s.owner i
        (advance s.workers i) t refl (permitted-Allowed c _ o.0) e in
    rw w (advance-Sound s.owner t.owner s.workers i c l at sound own others)

turn-Sound :
    (i : ℕ) (s t : System) → turn i s ≡ moved t → Sound s.owner s.workers → Sound t.owner t.workers
unfolding turn
turn-Sound i s t e sound = turn_from s i t (pending s.workers i) refl sound e

pub start-Sound :
    (r : Reconciler) (queues : List (List (ObjectKey × World)))
    → Sound (start r queues).owner (start r queues).workers
unfolding start
start-Sound r [] i = refl
start-Sound r (q ∷ qs) zero = serve-Obeys r q
start-Sound r (q ∷ qs) (suc i) = start-Sound r qs i

pub Turns-Sound :
    {s t : System} {n : ℕ} → Turns s n t → Sound s.owner s.workers → Sound t.owner t.workers
Turns-Sound none_yet sound = sound
Turns-Sound (one_more i p e) sound = turn-Sound i _ _ e (Turns-Sound p sound)
