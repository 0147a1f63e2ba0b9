-- ===== src/Workers/Obeys.antt =====
-- The calls of one worker obey the mutex.
use kubernetes_kops_operator.Prelude.{Bool, true, false, ◌≡◌, refl, List, [], ◌∷◌}
use kubernetes_kops_operator.Api.Meta.{ObjectKey}
use kubernetes_kops_operator.Io.{World, History}
use kubernetes_kops_operator.Outside.Call.{Call}
use kubernetes_kops_operator.Controller.Body.{Reconciler}
use kubernetes_kops_operator.Controller.Lock.{after, held, permitted, Disciplined}
use kubernetes_kops_operator.Controller.Safety.{Free, reconcile-Free}
use kubernetes_kops_operator.Workers.{serve, in_time}

-- From now on, with the mutex held by this worker or not, every call is right, and the mutex is not kept.
abbrev pub Obeys : Bool → List Call → Type 0
Obeys b [] = b ≡ false
Obeys b (c ∷ l) = (permitted c b ≡ true) × Obeys (after c b) l

in_time-Obeys :
    (h : History) (l : List Call) → Disciplined h → Obeys (held h) l → Obeys false (in_time h l)
in_time-Obeys [] l d o = o
in_time-Obeys (c ∷ h) l d o = in_time-Obeys h (c ∷ l) d.1 (d.0, o)

serve-Free :
    (r : Reconciler) (q : List (ObjectKey × World)) (h : History) → Free h → Free (serve r q h)
unfolding serve
serve-Free r [] h p = p
serve-Free r ((key, w) ∷ q) h p = serve-Free r q _ (reconcile-Free r key w h p)

pub serve-Obeys :
    (r : Reconciler) (q : List (ObjectKey × World)) → Obeys false (in_time (serve r q []) [])
serve-Obeys r q = let (f, d) = serve-Free r q [] (refl, tt) in in_time-Obeys (serve r q []) [] d f
