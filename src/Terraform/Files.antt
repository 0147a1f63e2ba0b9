-- ===== src/Terraform/Files.antt =====
-- The files in the output directory: those from templates, and the cleanup that leaves only the files of
-- terraform itself.
use kubernetes_kops_operator.Prelude.{String, ◌<>◌, not, List, [], ◌∷◌}
use kubernetes_kops_operator.Io.{Io, pure, perform, act, ◌>>=◌, ◌>>◌, when, for_each}
use kubernetes_kops_operator.Outside.Call.{Call}
use kubernetes_kops_operator.Terraform.Cache.{join_path}
use text.Mathlib.Text.{starts_with}

-- The values are those that the template refers to.
pub record Template : Type 0 where
  pub template_filename : String
  pub output_filename : String
  pub values : List String

unfoldable pub create_additional_terraform_files : List Template → Io (Unit {0})
create_additional_terraform_files [] = pure tt
create_additional_terraform_files (t ∷ l) = do
  act (Call.create_file t.output_filename)
  act (Call.execute_template t.template_filename t.output_filename t.values)
  create_additional_terraform_files l

-- `CreateTerraformFilesFromTemplate`
unfoldable pub create_terraform_file : String → String → String → List String → Io (Unit {0})
unfolding create_additional_terraform_files
create_terraform_file template name dir values = create_additional_terraform_files (
    record { template_filename = template; output_filename = dir <> ("/" <> name); values = values }
    ∷ [])

unfoldable pub cleanup_terraform_directory : String → Io (Unit {0})
cleanup_terraform_directory dir = do
  names ← perform (Call.read_dir dir)
  for_each names λ name.
      when (not (starts_with name ".terraform")) (act (Call.remove_all (join_path dir name)))
