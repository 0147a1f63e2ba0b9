-- ===== src/Terraform/Provider/Versioned.antt =====
-- `ModifyTerraformProviderVersion` as a whole.
use kubernetes_kops_operator.Prelude.{String, ◌<>◌, ◌≡◌}
use kubernetes_kops_operator.Io.{ok, World, History, Io}
use kubernetes_kops_operator.Io.Sure.{Done, Sure}
use kubernetes_kops_operator.Outside.Call.{Call}
use kubernetes_kops_operator.Terraform.Provider.Edited.{Occurs, Edited}

abbrev pub kubernetes_file : String → String
kubernetes_file dir = dir <> "/kubernetes.tf"

-- What was read had the pattern, and what was written with success is the same text but for the versions.
abbrev pub Versioned : World → String → String → History → History → Type 0
Versioned w dir version h k =
    (content : String) × (new : String) × (w.answer h (Call.read_file (kubernetes_file dir))
      ≡ ok content)
    × Occurs content
    × Edited version content new
    × Done w (Call.write_file (kubernetes_file dir) new) h k
