-- ===== src/Tests/Store.antt =====
-- A secret store that keeps its promises.
use kubernetes_kops_operator.Prelude.{
  String, Bool, true, false, Option, none, some, [], ◌∷◌, ◌==◌, ◌≡◌, refl, sym, ap, ◌∙◌, ◌⊎◌, inl,
  inr, if◌then◌else◌,
}
use kubernetes_kops_operator.Prelude.Dict.{Dict, lookup, insert, erase, lookup-insert, lookup-erase}
use kubernetes_kops_operator.Io.{Result, ok, World, History}
use kubernetes_kops_operator.Outside.Call.{Call, Reply}
use kubernetes_kops_operator.Utils.Secrets.{reconcile_kops_secrets}
use kubernetes_kops_operator.Utils.Secrets.Contents.{
  Store, changed, contents, is_secret_call, Lawful,
}
use kubernetes_kops_operator.Utils.Secrets.Synced.{Synced, reconcile-Synced}
use kubernetes_kops_operator.Tests.Data.{world, key}

abbrev initial : Dict String
initial = ("stale", "x") ∷ ("a", "old") ∷ ("other", "y") ∷ []

abbrev wanted : Dict String
wanted = ("a", "new") ∷ ("b", "2") ∷ []

abbrev created_in : String → String → Option String → Dict String → Dict String
created_in n v none m = insert n v m
created_in n v (some s) m = m

abbrev store_of : History → Dict String
store_of [] = initial
store_of (Call.get_or_create_secret n v ∷ h) = created_in n v (lookup n (store_of h)) (store_of h)
store_of (Call.replace_secret n v ∷ h) = insert n v (store_of h)
store_of (Call.delete_secret n ∷ h) = erase n (store_of h)
store_of (_ ∷ h) = store_of h

abbrev got : String → Option String → Result (String × Bool)
got v none = ok (v, true)
got v (some s) = ok (s, false)

abbrev keeper_answers : History → (c : Call) → Result (Reply c)
keeper_answers h (Call.get_secret k) = ok wanted
keeper_answers h (Call.get_or_create_secret n v) = got v (lookup n (store_of h))
keeper_answers h c = (world none).answer h c

abbrev keeper : World
keeper = record (world none) { answer = keeper_answers }

abbrev base : Store
base n = lookup n initial

agrees : (h : History) (n : String) → contents keeper base h n ≡ lookup n (store_of h)
agrees [] n = refl
agrees (Call.get_or_create_secret m v ∷ h) n = go (lookup m (store_of h)) (agrees h n)
  where
    go :
        (o : Option String)
        → contents keeper base h n ≡ lookup n (store_of h)
        → changed (Call.get_or_create_secret m v) (got v o) (contents keeper base h) n
          ≡ lookup n (created_in m v o (store_of h))
    go none e = ap (λ x. if m == n then some v else x) e ∙ sym (lookup-insert n m v (store_of h))
    go (some s) e = e
agrees (Call.replace_secret m v ∷ h) n =
    ap (λ x. if m == n then some v else x) (agrees h n) ∙ sym (lookup-insert n m v (store_of h))
agrees (Call.delete_secret m ∷ h) n =
    ap (λ x. if m == n then none else x) (agrees h n) ∙ sym (lookup-erase n m (store_of h))
agrees (_ ∷ h) n = agrees h n

keeper_works :
    (h : History) (c : Call) → is_secret_call c ≡ true → (x : Reply c) × (keeper.answer h c ≡ ok x)
keeper_works h (Call.get_or_create_secret m v) e = go (lookup m (store_of h))
  where
    go : (o : Option String) → (x : String × Bool) × (got v o ≡ ok x)
    go none = ((v, true), refl)
    go (some s) = ((s, false), refl)
keeper_works h (Call.replace_secret m v) e = (tt, refl)
keeper_works h (Call.delete_secret m) e = (tt, refl)
keeper_works h _ e = cc

keeper_gets :
    (h : History) (name value stored : String) (created : Bool)
    → keeper.answer h (Call.get_or_create_secret name value) ≡ ok (stored, created)
    → ((created ≡ true) × (contents keeper base h name ≡ none))
      ⊎ ((created ≡ false) × (contents keeper base h name ≡ some stored))
keeper_gets h name value stored created e = go (lookup name (store_of h)) refl e
  where
    go :
        (o : Option String)
        → lookup name (store_of h) ≡ o
        → got value o ≡ ok (stored, created)
        → ((created ≡ true) × (contents keeper base h name ≡ none))
          ⊎ ((created ≡ false) × (contents keeper base h name ≡ some stored))
    go none l e = inl (cc, agrees h name ∙ l)
    go (some s) l e = inr (cc, agrees h name ∙ l ∙ cc)

keeper-Lawful : Lawful keeper base
keeper-Lawful = record { works = keeper_works; gets = keeper_gets }

Synced_example :
    Synced keeper base wanted
      ("stale" ∷ "a" ∷ [])
      []
      (reconcile_kops_secrets key ("stale" ∷ "a" ∷ []) keeper [])
Synced_example =
    reconcile-Synced keeper base keeper-Lawful wanted (refl, (refl, tt)) key ("stale" ∷ "a" ∷ []) []
      refl
