-- ===== src/Controller/Groups.antt =====
-- The instance groups of the state store against the machine pools.
use kubernetes_kops_operator.Prelude.{Bool, true, false, Option, none, some, ◌∷◌, ◌⊎◌, inl, inr}
use kubernetes_kops_operator.Api.{KopsMachinePool}
use kubernetes_kops_operator.Api.Kops.{InstanceGroup}
use kubernetes_kops_operator.Io
use kubernetes_kops_operator.Io.{Error, World, History, Io, perform}
use kubernetes_kops_operator.Io.Sure.{Done, later, Sure}
use kubernetes_kops_operator.Outside.Call.{Call}
use kubernetes_kops_operator.Controller.Pools.{prepare_pool, instance_group}

-- `D` where no error came beside the pool.
abbrev pub Unfailed : (History → Type 0) → KopsMachinePool × Option Error → History → Type 0
Unfailed D (pool, none) k = D k
Unfailed D (pool, some e) k = Unit

-- Since `h` the group was written with success.
abbrev pub Written : World → InstanceGroup → History → History → Type 0
Written w g h k =
    Done w (Call.update_instance_group g) h k ⊎ Done w (Call.create_instance_group g) h k

Written-Extends :
    {w : World} {g : InstanceGroup} {h k : History} (c : Call)
    → Written w g h k
    → Written w g h (c ∷ k)
Written-Extends c (inl d) = inl (later c d)
Written-Extends c (inr d) = inr (later c d)

module _ (w : World) (h : History) where
  -- What the state store owes a pool that is there, or one that is being deleted.
  abbrev pub Reflects : KopsMachinePool → Bool → History → Type 0
  Reflects kmp true k = Written w (instance_group (prepare_pool kmp)) h k
  Reflects kmp false k = Done w (Call.delete_instance_group kmp.meta.name) h k
