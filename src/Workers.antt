-- ===== src/Workers.antt =====
-- The workers of the manager: `MaxConcurrentReconciles` of `SetupWithManager` of them call `Reconcile` on one
-- reconciler, so they share its mutex `Mux`. What the others do shows to a worker only in the answers of its
-- calls, which a World gives as it likes; so each worker makes the calls of some run, and the runs interleave.
pub mod Obeys
pub mod Sound
pub mod Exclusive
pub mod Finishes
use kubernetes_kops_operator.Prelude.{
  ℕ, zero, suc, ◌+◌, Option, none, some, List, [], ◌∷◌, ◌≡◌, length, map,
}
use kubernetes_kops_operator.Api.Meta.{ObjectKey}
use kubernetes_kops_operator.Io.{World, History}
use kubernetes_kops_operator.Outside.Call.{Call}
use kubernetes_kops_operator.Controller.Body.{Reconciler}
use kubernetes_kops_operator.Controller.Reconcile.{reconcile}

-- The requests of one worker, one after the other, each with the answers that it meets.
unfoldable pub serve : Reconciler → List (ObjectKey × World) → History → History
serve r [] h = h
serve r ((key, w) ∷ l) h = serve r l (reconcile r key w h).1

-- The calls of a history in the order of time, in front of others.
abbrev pub in_time : History → List Call → List Call
in_time [] l = l
in_time (c ∷ h) l = in_time h (c ∷ l)

-- Who holds the mutex, and the calls that each worker has still to make.
pub record System : Type 0 where
  pub owner : Option ℕ
  pub workers : List (List Call)

abbrev pub pending : List (List Call) → ℕ → List Call
pending [] i = []
pending (l ∷ ws) zero = l
pending (l ∷ ws) (suc i) = pending ws i

abbrev rest : List Call → List Call
rest [] = []
rest (c ∷ l) = l

abbrev pub advance : List (List Call) → ℕ → List (List Call)
advance [] i = []
advance (l ∷ ws) zero = rest l ∷ ws
advance (l ∷ ws) (suc i) = l ∷ advance ws i

-- What a call does to the mutex.
pub data MutexOp : Type 0 where
  locks unlocks leaves : MutexOp

abbrev pub mutex_op : Call → MutexOp
mutex_op Call.mux_lock = locks
mutex_op Call.mux_unlock = unlocks
mutex_op _ = leaves

-- `Lock` waits while the mutex is held, by whomever. `Unlock` frees it, and is a fatal error of the Go runtime
-- if nobody holds it.
pub data Turn : Type 0 where
  moved : System → Turn
  waits : Turn
  fatal : Turn
  finished : Turn

abbrev pub obtain : Option ℕ → ℕ → List (List Call) → Turn
obtain none i ws = moved (record { owner = some i; workers = ws })
obtain (some j) i ws = waits

abbrev pub free : Option ℕ → List (List Call) → Turn
free none ws = fatal
free (some j) ws = moved (record { owner = none; workers = ws })

abbrev pub make : MutexOp → ℕ → Option ℕ → List (List Call) → Turn
make locks i owner ws = obtain owner i ws
make unlocks i owner ws = free owner ws
make leaves i owner ws = moved (record { owner = owner; workers = ws })

abbrev pub take_turn : List Call → ℕ → Option ℕ → List (List Call) → Turn
take_turn [] i owner ws = finished
take_turn (c ∷ l) i owner ws = make (mutex_op c) i owner ws

-- Worker `i` makes its next call.
unfoldable pub turn : ℕ → System → Turn
turn i s = take_turn (pending s.workers i) i s.owner (advance s.workers i)

-- A schedule of `n` turns.
pub data Turns : System → ℕ → System → Type 0 where
  none_yet : {s : System} → Turns s 0 s
  one_more : {s t u : System} {n : ℕ} (i : ℕ) → Turns s n t → turn i t ≡ moved u → Turns s (suc n) u

unfoldable pub start : Reconciler → List (List (ObjectKey × World)) → System
unfolding serve
start r queues = record { owner = none; workers = map (λ q. in_time (serve r q []) []) queues }

abbrev pub total : List (List Call) → ℕ
total [] = 0
total (l ∷ ws) = length l + total ws
