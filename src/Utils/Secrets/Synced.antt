-- ===== src/Utils/Secrets/Synced.antt =====
-- `ReconcileKopsSecrets` refines the abstract synchronisation of a map.
use kubernetes_kops_operator.Prelude.{
  String, Bool, true, false, not, ◌&&◌, none, some, List, [], ◌∷◌, ◌==◌, contains, ◌≡◌, refl, sym,
  ap, ◌∙◌, ◌⊎◌, inl, inr, eq_iff, Bool-cases,
}
use mathlib.Core.Path.{fun_ext, Path}
use kubernetes_kops_operator.Prelude.Dict.{Dict, has_key}
use kubernetes_kops_operator.Io.{
  Result, ok, err, panic, World, History, Io, pure, perform, act, ◌>>=◌, try, choose, continue,
}
use kubernetes_kops_operator.Io.Count.{discard, act_run}
use kubernetes_kops_operator.Outside.Call.{Call, Reply}
use kubernetes_kops_operator.Utils.Secrets.{
  Tracked, remove_first, delete_loop, track, reconcile_kops_secrets_normal,
  reconcile_kops_secrets_delete, reconcile_kops_secrets, stop_or_go,
}
use kubernetes_kops_operator.Utils.Secrets.Names.{
  deleted, kept_names, stored, tracked, IsMap, synced, names_lem, store_lem,
}
use kubernetes_kops_operator.Api.Meta.{ObjectKey}
use kubernetes_kops_operator.Utils.Secrets.Contents.{
  Store, put, changed, contents, is_secret_call, Lawful,
}

-- A run that ends well, with these names and these contents.
abbrev EndsWith : World → Store → Result Tracked × History → List String → Store → Type 0
EndsWith w base (r, k) status f = (r ≡ ok (status, none)) × (contents w base k ≡ f)

module _ {w : World} {base : Store} (lawful : Lawful w base) where
  act_works :
      (c : Call) (h : History)
      → is_secret_call c ≡ true
      → (x : Reply c) × (w.answer h c ≡ ok x) × (act c w h ≡ (ok tt, c ∷ h))
  act_works c h s =
      let (x, e) = lawful.works h c s in
      (x, e, act_run c w h ∙ ap (λ (r : Result (Reply c)). (discard r, c ∷ h)) e)

  delete_loop-EndsWith :
      (wanted : Dict String) (names status : List String) (h : History)
      → EndsWith w base
          (delete_loop wanted names status w h)
          (kept_names wanted names status)
          (deleted wanted names (contents w base h))
  unfolding delete_loop try pure
  delete_loop-EndsWith wanted [] status h = (refl, refl)
  delete_loop-EndsWith wanted (m ∷ names) status h = elim (Bool-cases (has_key m wanted)) [
    | inl e ↦ rw e (delete_loop-EndsWith wanted names status h)
    | inr e ↦
        let (x, a, r) = act_works (Call.delete_secret m) h refl in
        let (s, c) =
          delete_loop-EndsWith wanted names (remove_first m status) (Call.delete_secret m ∷ h) in
        rw (e, r)
          (
            s,
            c
                ∙ ap
                    (λ r.
                      deleted wanted names (changed (Call.delete_secret m) r (contents w base h)))
                    a,
          )
  ]

  -- A call that leaves the store with the value.
  put_same : (f : Store) (n v : String) → f n ≡ some v → f ≡ put n (some v) f
  put_same f n v e = fun_ext λ m. pointwise m
    where
      pointwise : (m : String) → f m ≡ put n (some v) f m
      pointwise m = elim (Bool-cases (n == m)) [
        | inl q ↦ rw q (sym (ap f ((eq_iff n m).0 q)) ∙ e)
        | inr q ↦ rw q refl
      ]

  module _ (n v : String) (wanted : Dict String) (status : List String)
      (next : (h : History)
        → EndsWith w base
            (reconcile_kops_secrets_normal wanted (track n status) w h)
            (tracked wanted (track n status))
            (stored wanted (contents w base h)))
      (h : History) where
    -- The entry is in the store, and the loop goes on.
    goes_on :
        (k : History)
        → contents w base k ≡ put n (some v) (contents w base h)
        → EndsWith w base
            (reconcile_kops_secrets_normal wanted (track n status) w k)
            (tracked wanted (track n status))
            (stored wanted (put n (some v) (contents w base h)))
    goes_on k e = let (s, c) = next k in (s, c ∙ ap (stored wanted) e)

    abbrev second : Io Tracked
    second =
        try (act (Call.replace_secret n v))
          (λ _. reconcile_kops_secrets_normal wanted (track n status)) (λ e. pure (status, some e))

    abbrev Goal : Result Tracked × History → Type 0
    Goal x =
        EndsWith w base x (tracked wanted (track n status))
          (stored wanted (put n (some v) (contents w base h)))

    replaced : (k : History) → contents w base k ≡ contents w base h → Goal (second w k)
    unfolding try pure
    replaced k e =
        let (x, a, r) = act_works (Call.replace_secret n v) k refl in
        rw r (
          goes_on (Call.replace_secret n v ∷ k) (
            ap (λ r. changed (Call.replace_secret n v) r (contents w base k)) a
            ∙ ap (put n (some v)) e))

    answered :
        (s : String) (created : Bool)
        → w.answer h (Call.get_or_create_secret n v) ≡ ok (s, created)
        → Goal (
            choose
              (not created && not (s == v))
              second
              (reconcile_kops_secrets_normal wanted (track n status))
              w
              (Call.get_or_create_secret n v ∷ h))
    answered s true a =
        goes_on _ (ap (λ r. changed (Call.get_or_create_secret n v) r (contents w base h)) a)
    answered s false a = elim (Bool-cases (s == v)) [
      | inl q ↦ rw q (
          goes_on _ (
            unchanged
            ∙ put_same (contents w base h) n v
                (holds (lawful.gets h n v s false a) ∙ ap some ((eq_iff s v).0 q))))
      | inr q ↦ rw q (replaced _ unchanged)
    ]
      where
        unchanged : contents w base (Call.get_or_create_secret n v ∷ h) ≡ contents w base h
        unchanged = ap (λ r. changed (Call.get_or_create_secret n v) r (contents w base h)) a

        holds :
            ((Path Bool false true) × (contents w base h n ≡ none))
              ⊎ ((Path Bool false false) × (contents w base h n ≡ some s))
            → contents w base h n ≡ some s
        holds (inl p) = let q = p.0 in cc
        holds (inr p) = p.1

  normal-EndsWith :
      (wanted : Dict String) (status : List String) (h : History)
      → EndsWith w base
          (reconcile_kops_secrets_normal wanted status w h)
          (tracked wanted status)
          (stored wanted (contents w base h))
  unfolding reconcile_kops_secrets_normal try pure perform
  normal-EndsWith [] status h = (refl, refl)
  normal-EndsWith ((n, v) ∷ wanted) status h =
      let ((s, created), a) = lawful.works h (Call.get_or_create_secret n v) refl in
      rw a (answered n v wanted status (normal-EndsWith wanted (track n status)) h s created a)

-- The synchronisation as it is meant: it returns no error, the names that it leaves in the status are those of the
-- wanted secrets, and the contents of the store are synchronised with them.
abbrev pub Synced :
    World → Store → Dict String → List String → History → Result Tracked × History → Type 0
Synced w base wanted status h (r, k) =
    (names : List String) × (r ≡ ok (names, none))
    × ((n : String) → contains names n ≡ has_key n wanted)
    × ((n : String) → contents w base k n ≡ synced wanted status (contents w base h) n)

module _ (w : World) (base : Store) where
  dropped :
      (x : Result Tracked × History) (names : List String) (f : Store)
      → EndsWith w base x names f
      → EndsWith w base (continue x w (λ n. pure (n.0, none))) names f
  unfolding pure
  dropped (ok (s, none), k) names f p = p
  dropped (ok (s, some e), k) names f p = let q = p.0 in cc
  dropped (err e, k) names f p = let q = p.0 in cc
  dropped (panic, k) names f p = let q = p.0 in cc

module _ {w : World} {base : Store} (lawful : Lawful w base) (wanted : Dict String) where
  second_half :
      (x : Result Tracked × History) (names : List String) (f : Store)
      → EndsWith w base x names f
      → EndsWith w base (continue x w (stop_or_go wanted)) (tracked wanted names) (stored wanted f)
  unfolding stop_or_go ◌>>=◌
  second_half (ok (s, none), k) names f p =
      let q = p.0 in
      let same : s ≡ names = cc in
      let (r, c) = dropped w base _ _ _ (normal-EndsWith lawful wanted s k) in
      (r ∙ ap (λ l. ok (tracked wanted l, none)) same, c ∙ ap (stored wanted) p.1)
  second_half (ok (s, some e), k) names f p = let q = p.0 in cc
  second_half (err e, k) names f p = let q = p.0 in cc
  second_half (panic, k) names f p = let q = p.0 in cc

  both_halves :
      (status : List String) (h : History)
      → EndsWith w base
          ((reconcile_kops_secrets_delete wanted status >>= stop_or_go wanted) w h)
          (tracked wanted (kept_names wanted status status))
          (stored wanted (deleted wanted status (contents w base h)))
  unfolding reconcile_kops_secrets_delete ◌>>=◌
  both_halves status h = second_half _ _ _ (delete_loop-EndsWith lawful wanted status status h)

-- On a lawful store, and a Kubernetes secret that was read, `ReconcileKopsSecrets` returns no error; it leaves the
-- wanted secrets with their values, none of those that were tracked and are not wanted, and every other one as it was;
-- and the status names the wanted secrets, and no others.
pub reconcile-Synced :
    (w : World) (base : Store)
    → Lawful w base
    → (wanted : Dict String) → IsMap wanted
    → (key : ObjectKey) (status : List String) (h : History)
    → w.answer h (Call.get_secret key) ≡ ok wanted
    → Synced w base wanted status h (reconcile_kops_secrets key status w h)
unfolding reconcile_kops_secrets try perform
reconcile-Synced w base lawful wanted map key status h e =
    let (r, c) = both_halves lawful wanted status (Call.get_secret key ∷ h) in
    rw e (
      tracked wanted (kept_names wanted status status),
      r,
      λ n. names_lem n wanted status,
      λ n. ap (λ f. f n) c ∙ store_lem n wanted status (contents w base h) map,
    )
