-- ===== src/Tests/Runs.antt =====
-- Runs of the reconciler on concrete inputs.
use kubernetes_kops_operator.Prelude.{false, none, ◌≡◌, refl}
use kubernetes_kops_operator.Io.{ok}
use kubernetes_kops_operator.Kops.Cidr.{calculate_service_cluster_ip_range}
use kubernetes_kops_operator.Utils.Features.{get_bucket_name}
use kubernetes_kops_operator.Terraform.Provider.{replace_versions, trim_quotes}
use kubernetes_kops_operator.Tests.Data.{world, kubernetes_tf}

-- A network of a thousand addresses has a service range of two, and one of two has none.
wide_range : calculate_service_cluster_ip_range (world none) "100.64.0.0/10" ≡ ok "100.64.0.0/20"
unfolding calculate_service_cluster_ip_range
wide_range = refl

narrow_range : calculate_service_cluster_ip_range (world none) "10.1.2.3/30" ≡ ok "<nil>"
unfolding calculate_service_cluster_ip_range
narrow_range = refl

bucket : get_bucket_name "s3://kops-state/prod" ≡ ok "kops-state"
unfolding get_bucket_name
bucket = refl

-- The version of the provider is replaced, and the other is left.
new_version :
    replace_versions (λ d. false) (trim_quotes "'6.13.0'") 0 kubernetes_tf
    ≡ "aws = {\n source = \"hashicorp/aws\"\n \"version\" = \"6.13.0\"\n}\nspotinst = { version = \"1\" }"
unfolding replace_versions trim_quotes
new_version = refl

-- A `$` in the version refers to a group.
dollar : replace_versions (λ d. false) "1.$2" 0 "aws={version=\"4\"}" ≡ "aws={version=\"1.\"}"
unfolding replace_versions
dollar = refl
