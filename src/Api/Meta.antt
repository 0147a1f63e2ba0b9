-- ===== src/Api/Meta.antt =====
-- Object metadata of Kubernetes, as far as the operator uses it.
use kubernetes_kops_operator.Prelude.{ℕ, String, Bool, Option, none, some, List, true, false}
use kubernetes_kops_operator.Prelude.Dict.{Dict}

pub record ObjectKey : Type 0 where
  pub namespace : String
  pub name : String

pub record OwnerReference : Type 0 where
  pub api_version : String
  pub kind : String
  pub name : String
  pub uid : String

pub record ObjectReference : Type 0 where
  pub api_version : String
  pub kind : String
  pub namespace : String
  pub name : String
  pub uid : String

-- `deletion_timestamp` is `none` where Go's `IsZero()` holds.
pub record ObjectMeta : Type 0 where
  pub name : String
  pub namespace : String
  pub uid : String
  pub labels : Dict String
  pub annotations : Dict String
  pub finalizers : List String
  pub owner_references : List OwnerReference
  pub deletion_timestamp : Option ℕ

abbrev pub is_zero : Option ℕ → Bool
is_zero none = true
is_zero (some t) = false

-- A Cluster API condition.
pub record Condition : Type 0 where
  pub kind : String
  pub is_true : Bool
  pub reason : String
  pub severity : String
  pub message : String
