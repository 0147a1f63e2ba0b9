-- ===== src/Controller/Kept.antt =====
-- The list of machine pools under the two loops over it.
use kubernetes_kops_operator.Prelude.{String, Option, List, ◌≡◌, map}
use kubernetes_kops_operator.Api.{KopsMachinePool}
use kubernetes_kops_operator.Api.Meta.{ObjectMeta}
use kubernetes_kops_operator.Io
use kubernetes_kops_operator.Io.{Error, Io}
use kubernetes_kops_operator.Io.Steady.{Steady}

abbrev pub names : List KopsMachinePool → List String
names = map (λ k. k.meta.name)

abbrev pub metas : List KopsMachinePool → List ObjectMeta
metas = map (λ k. k.meta)

abbrev Named : String → KopsMachinePool → Type 0
Named name k = k.meta.name ≡ name

abbrev NamedOr : String → KopsMachinePool × Option Error → Type 0
NamedOr name (k, e) = k.meta.name ≡ name
