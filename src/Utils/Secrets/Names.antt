-- ===== src/Utils/Secrets/Names.antt =====
-- The two halves of the synchronisation, name by name.
use kubernetes_kops_operator.Prelude.{
  String, Bool, true, false, ◌||◌, Option, none, some, List, [], ◌∷◌, ◌++◌, ◌==◌, contains, ◌≡◌,
  refl, sym, ap, ◌∙◌, inl, inr, if◌then◌else◌, ℕ, ◌+◌, ◌-◌, eq_iff, arith, Bool-cases,
}
use kubernetes_kops_operator.Prelude.Dict.{Dict, lookup, has_key}
use kubernetes_kops_operator.Utils.Secrets.{remove_first, track}
use kubernetes_kops_operator.Utils.Secrets.Contents.{Store, put}

-- The two halves on the contents and on the names in the status.
abbrev pub deleted : Dict String → List String → Store → Store
deleted wanted [] f = f
deleted wanted (m ∷ names) f =
    if has_key m wanted then deleted wanted names f else deleted wanted names (put m none f)

abbrev pub kept_names : Dict String → List String → List String → List String
kept_names wanted [] status = status
kept_names wanted (m ∷ names) status =
    if has_key m wanted
    then kept_names wanted names status
    else kept_names wanted names (remove_first m status)

abbrev pub stored : Dict String → Store → Store
stored [] f = f
stored ((n, v) ∷ wanted) f = stored wanted (put n (some v) f)

abbrev pub tracked : Dict String → List String → List String
tracked [] status = status
tracked ((n, v) ∷ wanted) status = tracked wanted (track n status)

-- The keys of a Go map are distinct.
abbrev pub IsMap : Dict String → Type 0
IsMap [] = Unit
IsMap ((k, v) ∷ m) = (has_key k m ≡ false) × IsMap m

abbrev or_old : Option String → Option String → Option String
or_old none o = o
or_old (some v) o = some v

-- What is to come of a store: the wanted secrets, without those that were tracked and are not wanted.
abbrev pub synced : Dict String → List String → Store → Store
synced wanted status f n = elim (lookup n wanted) [
  | some v ↦ some v
  | none ↦ if contains status n then none else f n
]

missing_key :
    (n : String) (wanted : Dict String) → has_key n wanted ≡ false → lookup n wanted ≡ none
missing_key n wanted e = go (lookup n wanted) e
  where
    go : (o : Option String) → (elim o [ none ↦ false | some _ ↦ true ]) ≡ false → o ≡ none
    go none e = refl
    go (some v) e = cc

stored_lem :
    (n : String) (wanted : Dict String) (f : Store)
    → IsMap wanted
    → stored wanted f n ≡ or_old (lookup n wanted) (f n)
stored_lem n [] f p = refl
stored_lem n ((k, v) ∷ wanted) f p = elim (Bool-cases (k == n)) [
  | inl e ↦
      let ih = stored_lem n wanted (put k (some v) f) p.1 in
      let same : k ≡ n = (eq_iff k n).0 e in
      let none_left : lookup n wanted ≡ none =
        ap (λ x. lookup x wanted) (sym same) ∙ missing_key k wanted p.0 in
      ih ∙ (rw (none_left, e) refl)
  | inr e ↦ stored_lem n wanted (put k (some v) f) p.1 ∙ (rw e refl)
]

deleted_lem :
    (n : String) (wanted : Dict String) (names : List String) (f : Store)
    → has_key n wanted ≡ false
    → deleted wanted names f n ≡ (if contains names n then none else f n)
deleted_lem n wanted [] f e = refl
deleted_lem n wanted (m ∷ names) f e = elim (Bool-cases (has_key m wanted)) [
  | inl q ↦ rw q (deleted_lem n wanted names f e ∙ other (m == n) refl q)
  | inr q ↦ rw q (deleted_lem n wanted names (put m none f) e ∙ same (m == n) (contains names n))
]
  where
    other :
        (b : Bool)
        → (m == n) ≡ b
        → has_key m wanted ≡ true
        → (if contains names n then none else f n) ≡ (if b || contains names n then none else f n)
    other true a q =
        let k : m ≡ n = (eq_iff m n).0 a in
        absurd (differ (sym q ∙ ap (λ x. has_key x wanted) k ∙ e))
      where
        differ : true ≡ false → ⊥
        differ p = cc
    other false a q = refl

    same :
        (b c : Bool)
        → (if c then none else if b then none else f n) ≡ (if b || c then none else f n)
    same true true = refl
    same true false = refl
    same false true = refl
    same false false = refl

abbrev count : String → List String → ℕ
count n [] = 0
count n (x ∷ l) = (if x == n then 1 else 0) + count n l

count-remove_first :
    (n m : String) (l : List String)
    → count n (remove_first m l) ≡ count n l - (if m == n then 1 else 0)
unfolding remove_first
count-remove_first n m [] = ground arith
count-remove_first n m (x ∷ l) =
    ground (arith, eq_iff x m, eq_iff m n, eq_iff x n, count-remove_first n m l)

count-kept_names :
    (n : String) (wanted : Dict String) (names l : List String)
    → has_key n wanted ≡ false
    → count n (kept_names wanted names l) ≡ count n l - count n names
count-kept_names n wanted [] l e = omega arith
count-kept_names n wanted (m ∷ names) l e = elim (Bool-cases (has_key m wanted)) [
  | inl q ↦
      rw q (count-kept_names n wanted names l e ∙ ap (λ c. count n l - c) (other (m == n) refl q))
  | inr q ↦ rw q (
      omega (arith, count-kept_names n wanted names (remove_first m l) e, count-remove_first n m l))
]
  where
    other :
        (b : Bool)
        → (m == n) ≡ b
        → has_key m wanted ≡ true
        → count n names ≡ (if b then 1 else 0) + count n names
    other true a q =
        let k : m ≡ n = (eq_iff m n).0 a in
        absurd (differ (sym q ∙ ap (λ x. has_key x wanted) k ∙ e))
      where
        differ : true ≡ false → ⊥
        differ p = cc
    other false a q = omega arith

contains-count : (n : String) (l : List String) → count n l ≡ 0 → contains l n ≡ false
contains-count n [] e = refl
contains-count n (x ∷ l) e = elim (Bool-cases (x == n)) [
  | inl q ↦ absurd (ground arith)
  | inr q ↦ rw q (contains-count n l (ground arith))
]

contains-append :
    (n m : String) (l : List String) → contains (l ++ (m ∷ [])) n ≡ contains l n || m == n
contains-append n m [] = ground arith
contains-append n m (x ∷ l) = ground (arith, contains-append n m l)

contains-track : (n m : String) (l : List String) → contains (track m l) n ≡ contains l n || m == n
contains-track n m l = elim (Bool-cases (contains l m)) [
  | inl e ↦ rw e (by (m == n) refl e)
  | inr e ↦ rw e (contains-append n m l)
]
  where
    by : (b : Bool) → (m == n) ≡ b → contains l m ≡ true → contains l n ≡ contains l n || b
    by true q e =
        let k : m ≡ n = (eq_iff m n).0 q in
        let t : contains l n ≡ true = ap (contains l) (sym k) ∙ e in rw t refl
    by false q e = ground arith

contains-tracked :
    (n : String) (wanted : Dict String) (l : List String)
    → contains (tracked wanted l) n ≡ contains l n || has_key n wanted
contains-tracked n [] l = ground arith
contains-tracked n ((k, v) ∷ wanted) l =
    contains-tracked n wanted (track k l)
    ∙ ap (λ b. b || has_key n wanted) (contains-track n k l)
    ∙ by (contains l n) (k == n)
  where
    by :
        (a b : Bool)
        → ((a || b) || has_key n wanted)
          ≡ a || (elim (if b then some v else lookup n wanted) [ none ↦ false | some _ ↦ true ])
    by true b = refl
    by false true = refl
    by false false = refl

-- After both halves the status names the wanted secrets, and no others.
pub names_lem :
    (n : String) (wanted : Dict String) (status : List String)
    → contains (tracked wanted (kept_names wanted status status)) n ≡ has_key n wanted
names_lem n wanted status =
    contains-tracked n wanted (kept_names wanted status status) ∙ go (has_key n wanted) refl
  where
    go : (b : Bool) → has_key n wanted ≡ b → contains (kept_names wanted status status) n || b ≡ b
    go true e = ground arith
    go false e =
        let none_left : contains (kept_names wanted status status) n ≡ false =
          contains-count n _ (omega (arith, count-kept_names n wanted status status e)) in
        rw none_left refl

-- And the store is synchronised.
pub store_lem :
    (n : String) (wanted : Dict String) (status : List String) (f : Store)
    → IsMap wanted
    → stored wanted (deleted wanted status f) n ≡ synced wanted status f n
store_lem n wanted status f p =
    stored_lem n wanted (deleted wanted status f) p ∙ go (lookup n wanted) refl
  where
    go :
        (o : Option String)
        → lookup n wanted ≡ o
        → or_old o (deleted wanted status f n)
          ≡ (elim o [ some v ↦ some v | none ↦ if contains status n then none else f n ])
    go (some v) e = refl
    go none e = deleted_lem n wanted status f (rw (e, has_key) refl)
