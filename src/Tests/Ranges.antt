-- ===== src/Tests/Ranges.antt =====
-- A service range, computed and parsed again: 100.64.0.0/10 gives 100.64.0.0/20.
use kubernetes_kops_operator.Prelude.{◌≡◌, refl, none, String, arith}
use kubernetes_kops_operator.Io.{ok}
use kubernetes_kops_operator.Kops.Cidr.{parse_cidr, service_net, calculate_service_cluster_ip_range}
use kubernetes_kops_operator.Kops.Roundtrip.{parse_cidr-calculate}
use kubernetes_kops_operator.Tests.Data.{world, cidr}

given_range : parse_cidr (world none) "100.70.1.2/10" ≡ ok cidr
unfolding parse_cidr
given_range = refl

parse_cidr-calculate_example :
    (t : String) × (calculate_service_cluster_ip_range (world none) "100.70.1.2/10" ≡ ok t)
    × (parse_cidr (world none) t ≡ ok (service_net cidr))
parse_cidr-calculate_example =
    parse_cidr-calculate (world none) "100.70.1.2/10" cidr given_range refl (omega arith)
