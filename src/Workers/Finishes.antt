-- ===== src/Workers/Finishes.antt =====
-- The workers always get on.
use kubernetes_kops_operator.Prelude.{
  ℕ, zero, suc, ◌+◌, Bool, true, Option, none, some, List, [], ◌∷◌, ◌≡◌, ◌≢◌, refl, ◌⊎◌, inl, inr,
  eqb, arith, ap,
}
use mathlib.Core.Path.{subst}
use kubernetes_kops_operator.Api.Meta.{ObjectKey}
use kubernetes_kops_operator.Io.{World}
use kubernetes_kops_operator.Outside.Call.{Call}
use kubernetes_kops_operator.Controller.Body.{Reconciler}
use kubernetes_kops_operator.Workers.{
  System, pending, advance, MutexOp, locks, unlocks, leaves, mutex_op, Turn, moved, fatal, make,
  take_turn, turn, Turns, none_yet, one_more, start, total,
}
use kubernetes_kops_operator.Workers.Obeys.{Obeys}
use kubernetes_kops_operator.Workers.Sound.{
  owns, Sound, Allowed, permitted-Allowed, start-Sound, Turns-Sound,
}

-- A worker with a call to make, or none.
someone :
    (ws : List (List Call))
    → ((i : ℕ) × (c : Call) × (l : List Call) × (pending ws i ≡ c ∷ l)) ⊎ (total ws ≡ 0)
someone [] = inr refl
someone ((c ∷ l) ∷ ws) = inl (0, c, l, refl)
someone ([] ∷ ws) = elim (someone ws) [
  | inl (i, c, l, e) ↦ inl (suc i, c, l, e)
  | inr e ↦ inr (omega arith)
]

abbrev pub Moves : Turn → Type 0
Moves t = (u : System) × (t ≡ moved u)

-- A call that is right moves, unless it is to take a mutex that another holds.
right-Moves :
    (op : MutexOp) (b c : Bool) (owner : Option ℕ) (i : ℕ) (ws : List (List Call))
    → owns owner i ≡ b
    → Allowed op b c
    → (owner ≡ none) ⊎ (b ≡ true)
    → Moves (make op i owner ws)
right-Moves locks b c none i ws o a q = (_, refl)
right-Moves locks b c (some k) i ws o a (inl e) = cc
right-Moves locks b c (some k) i ws o a (inr e) = cc
right-Moves unlocks b c none i ws o a q = cc
right-Moves unlocks b c (some k) i ws o a q = (_, refl)
right-Moves leaves b c owner i ws o a q = (_, refl)

never_fatal :
    (op : MutexOp) (b c : Bool) (owner : Option ℕ) (i : ℕ) (ws : List (List Call))
    → owns owner i ≡ b
    → Allowed op b c
    → make op i owner ws ≢ fatal
never_fatal locks b c none i ws o a e = cc
never_fatal locks b c (some k) i ws o a e = cc
never_fatal unlocks b c none i ws o a e = cc
never_fatal unlocks b c (some k) i ws o a e = cc
never_fatal leaves b c owner i ws o a e = cc

worker-Moves :
    (s : System) (i : ℕ) (c : Call) (l : List Call)
    → pending s.workers i ≡ c ∷ l
    → Sound s.owner s.workers
    → (s.owner ≡ none) ⊎ (owns s.owner i ≡ true)
    → Moves (turn i s)
unfolding turn
worker-Moves s i c l at sound q =
    let o : Obeys (owns s.owner i) (c ∷ l) = subst (Obeys (owns s.owner i)) at (sound i) in
    rw at (
      right-Moves (mutex_op c) _ _ s.owner i (advance s.workers i) refl (permitted-Allowed c _ o.0)
        q)

-- The one who holds the mutex has calls left.
owner_left :
    (k : ℕ) (l : List Call) → Obeys (eqb k k) l → (c : Call) × (m : List Call) × (l ≡ c ∷ m)
owner_left k [] o = absurd (ground arith)
owner_left k (c ∷ m) o = (c, m, refl)

abbrev pub Rest : System → Type 0
Rest s = (total s.workers ≡ 0) × (s.owner ≡ none)

somebody-Moves :
    (owner : Option ℕ) (ws : List (List Call))
    → Sound owner ws
    → let s : System = record { owner = owner; workers = ws } in
      Rest s ⊎ ((i : ℕ) × Moves (turn i s))
somebody-Moves none ws sound = elim (someone ws) [
  | inl (i, c, l, e) ↦ inr (i, worker-Moves _ i c l e sound (inl refl))
  | inr e ↦ inl (e, refl)
]
somebody-Moves (some k) ws sound =
    let (c, l, e) = owner_left k (pending ws k) (sound k) in
    inr (k, worker-Moves _ k c l e sound (inr (ground arith)))

total-advance :
    (ws : List (List Call)) (i : ℕ) (c : Call) (l : List Call)
    → pending ws i ≡ c ∷ l
    → total (advance ws i) + 1 ≡ total ws
total-advance [] i c l e = cc
total-advance (m ∷ ws) zero c l e = rw e (omega arith)
total-advance (m ∷ ws) (suc i) c l e = omega (arith, total-advance ws i c l e)

make_advances :
    (op : MutexOp) (i : ℕ) (owner : Option ℕ) (ws : List (List Call)) (t : System)
    → make op i owner ws ≡ moved t
    → t.workers ≡ ws
make_advances locks i none ws t e = cc
make_advances locks i (some k) ws t e = cc
make_advances unlocks i none ws t e = cc
make_advances unlocks i (some k) ws t e = cc
make_advances leaves i owner ws t e = cc

turn_total :
    (i : ℕ) (s t : System) (l : List Call)
    → pending s.workers i ≡ l
    → take_turn l i s.owner (advance s.workers i) ≡ moved t
    → total t.workers + 1 ≡ total s.workers
turn_total i s t [] at e = cc
turn_total i s t (c ∷ l) at e =
    omega (
      arith,
      ap total (make_advances (mutex_op c) i s.owner _ t e),
      total-advance s.workers i c l at,
    )

Turns-total : {s t : System} {n : ℕ} → Turns s n t → n + total t.workers ≡ total s.workers
unfolding turn
Turns-total none_yet = omega arith
Turns-total (one_more {t} {u} i p e) = omega (arith, Turns-total p, turn_total i t u _ refl e)

turn_fatal :
    (i : ℕ) (s : System) (l : List Call)
    → Obeys (owns s.owner i) l
    → take_turn l i s.owner (advance s.workers i) ≢ fatal
turn_fatal i s [] o e = cc
turn_fatal i s (c ∷ l) o e =
    never_fatal (mutex_op c) _ _ s.owner i _ refl (permitted-Allowed c _ o.0) e

module _ (r : Reconciler) (queues : List (List (ObjectKey × World))) {n : ℕ} {s : System}
    (p : Turns (start r queues) n s) where
  -- However the workers take turns: nobody unlocks a mutex that is free; some worker can move, until every call
  -- of every request is made and the mutex is free; and each turn makes one of the finitely many calls, so no
  -- schedule goes on for ever and each that cannot go on has served all requests.
  pub Turns-finish :
      ((i : ℕ) → turn i s ≢ fatal)
      × (Rest s ⊎ ((i : ℕ) × Moves (turn i s)))
      × (n + total s.workers ≡ total (start r queues).workers)
  unfolding turn
  Turns-finish =
      let sound = Turns-Sound p (start-Sound r queues) in
      (
        λ i. turn_fatal i s (pending s.workers i) (sound i),
        somebody-Moves s.owner s.workers sound,
        Turns-total p,
      )
