-- ===== src/Karpenter/Labels.antt =====
-- Which of the labels of a node class wins.
use kubernetes_kops_operator.Prelude.{
  String, Bool, true, false, Option, none, some, [], ◌∷◌, ◌==◌, if◌then◌else◌, ◌≡◌, refl,
}
use kubernetes_kops_operator.Prelude.Dict.{Dict, lookup, insert, insert_all, lookup-insert}
use kubernetes_kops_operator.Karpenter.{essential_tags, merge_cloud_labels}

-- The first of two values that is there.
abbrev pub or_else : Option String → Option String → Option String
or_else none o = o
or_else (some v) o = some v

-- The last entry of the key; the only one, in a Go map.
abbrev pub last_of : String → Dict String → Option String
last_of k [] = none
last_of k ((j, v) ∷ m) = or_else (last_of k m) (if j == k then some v else none)

or_else_assoc : (a b c : Option String) → or_else (or_else a b) c ≡ or_else a (or_else b c)
or_else_assoc none b c = refl
or_else_assoc (some a) b c = refl

or_else-if :
    (b : Bool) (v : String) (o : Option String)
    → or_else (if b then some v else none) o ≡ (if b then some v else o)
or_else-if true v o = refl
or_else-if false v o = refl

lookup-insert_all :
    (k : String) (from into : Dict String)
    → lookup k (insert_all from into) ≡ or_else (last_of k from) (lookup k into)
lookup-insert_all k [] into = refl
lookup-insert_all k ((j, v) ∷ from) into =
    rw
      (
        lookup-insert_all k from (insert j v into),
        lookup-insert k j v into,
        or_else_assoc (last_of k from) (if j == k then some v else none) (lookup k into),
        or_else-if (j == k) v (lookup k into),
      )
      refl

or_else-none : (o : Option String) → or_else o none ≡ o
or_else-none none = refl
or_else-none (some v) = refl

-- Of the labels of a node class the essential tags win over those of the pool, and those of the pool over
-- those of the cluster; a key in none of them has no value.
pub merge_cloud_labels-precedence :
    (cluster pool : String) (cluster_labels pool_labels : Dict String) (k : String)
    → lookup k (merge_cloud_labels cluster pool cluster_labels pool_labels)
      ≡ or_else
          (last_of k (essential_tags cluster pool))
          (or_else (last_of k pool_labels) (last_of k cluster_labels))
unfolding merge_cloud_labels
merge_cloud_labels-precedence cluster pool cluster_labels pool_labels k =
    rw
      (
        lookup-insert_all k (essential_tags cluster pool)
            (insert_all pool_labels (insert_all cluster_labels [])),
        lookup-insert_all k pool_labels (insert_all cluster_labels []),
        lookup-insert_all k cluster_labels [],
        or_else-none (last_of k cluster_labels),
      )
      refl
