-- ===== src/Kops/Roundtrip.antt =====
-- The text of a network, parsed again: the service range that the controller hands to kOps.
use kubernetes_kops_operator.Prelude.{
  ℕ, ◌≤◌, ◌≡◌, refl, ap, sym, ◌∙◌, Option, none, some, String, List, length, leb, arith, Bool-cases,
  Option-cases, inl, inr,
}
use kubernetes_kops_operator.Prelude.Text.{cut, parse_decimal}
use kubernetes_kops_operator.Io.{Result, ok, err, panic, World}
use kubernetes_kops_operator.Kops.Cidr.{
  IpNet, parse_ip4, mask_ip, is_ip6, parse_addr, with_prefix, parse_cidr, show_net, service_net,
  calculate_service_cluster_ip_range,
}
use kubernetes_kops_operator.Kops.Dotted.{
  Octets, Dotted, parse_ip4-Octets, mask_ip-Octets, length-mask_ip, mask_ip-mask_ip,
  parse_cidr-show_net,
}

abbrev net_or : IpNet → Result IpNet → IpNet
net_or net (ok n) = n
net_or net (err e) = net
net_or net panic = net

-- An address of 32 bits has four bytes.
abbrev Sized : Option (List ℕ × ℕ) → Type 0
Sized none = Unit
Sized (some (bytes, bits)) = bits ≡ 32 → Octets bytes × (length bytes ≡ 4)

ip6-Sized : (o : Option (List ℕ)) → Sized (elim o [ none ↦ none | some bytes ↦ some (bytes, 128) ])
ip6-Sized none = tt
ip6-Sized (some bytes) = λ e. absurd (omega arith)

ip4-Sized :
    (o : Option (List ℕ))
    → ((r : List ℕ) → o ≡ some r → Octets r × (length r ≡ 4))
    → Sized (elim o [ none ↦ none | some bytes ↦ some (bytes, 32) ])
ip4-Sized none f = tt
ip4-Sized (some bytes) f = λ e. f bytes refl

parse_addr-Sized : (w : World) (s : String) → Sized (parse_addr w s)
parse_addr-Sized w s = elim (Bool-cases (is_ip6 s)) [
  | inl y ↦ rw y (ip6-Sized (w.parse_ip6 s))
  | inr y ↦ rw y (ip4-Sized (parse_ip4 s) (parse_ip4-Octets s))
]

masked-Dotted :
    (n k : ℕ) (bytes : List ℕ)
    → Octets bytes × (length bytes ≡ 4)
    → k ≡ 32
    → n ≤ k
    → Dotted (record { ip = mask_ip n bytes; ones = n; bits = k })
masked-Dotted n k bytes (o, four) e le = record {
  octets = mask_ip-Octets n bytes o;
  four = length-mask_ip n bytes ∙ four;
  bits = e;
  ones = omega arith;
  masked = mask_ip-mask_ip n n bytes (omega arith);
}

with_prefix-Dotted :
    (s : String) (o : Option (List ℕ × ℕ)) (n : Option ℕ) (net : IpNet)
    → Sized o
    → with_prefix s o n ≡ ok net
    → net.bits ≡ 32
    → Dotted net
with_prefix-Dotted s none n net z e bits = absurd (ground (arith, e))
with_prefix-Dotted s (some (bytes, k)) none net z e bits = absurd (ground (arith, e))
with_prefix-Dotted s (some (bytes, k)) (some n) net z e bits = elim (Bool-cases (leb n k)) [
  | inr y ↦ absurd (ground (arith, y, e))
  | inl y ↦
      (let value : with_prefix s (some (bytes, k)) (some n)
            ≡ ok (record { ip = mask_ip n bytes; ones = n; bits = k }) =
          rw y refl in
        let same : record { ip = mask_ip n bytes; ones = n; bits = k } ≡ net =
          ap (net_or net) (sym value ∙ e) in
        rw (sym same) (
          masked-Dotted n k bytes (z (ap (λ n. n.bits) same ∙ bits)) (ap (λ n. n.bits) same ∙ bits)
            (ground (arith, y))))
]

parse_cidr-Dotted :
    (w : World) (s : String) (net : IpNet) → parse_cidr w s ≡ ok net → net.bits ≡ 32 → Dotted net
unfolding parse_cidr
parse_cidr-Dotted w s net e bits = elim (Option-cases (cut b'/' s).1) [
  | inl y ↦ absurd (ground (arith, y, e))
  | inr (m, y) ↦
      (let value : parse_cidr w s ≡ with_prefix s (parse_addr w (cut b'/' s).0) (parse_decimal m) =
          rw (parse_cidr, y) refl in
        with_prefix-Dotted s _ (parse_decimal m) net (parse_addr-Sized w (cut b'/' s).0)
          (sym value ∙ e) bits)
]

service_net-Dotted : (net : IpNet) → Dotted net → net.ones ≤ 29 → Dotted (service_net net)
unfolding service_net
service_net-Dotted net d le = record {
  octets = mask_ip-Octets net.ones net.ip d.octets;
  four = length-mask_ip net.ones net.ip ∙ d.four;
  bits = d.bits;
  ones = ground arith;
  masked = mask_ip-mask_ip net.ones (service_net net).ones net.ip (ground arith);
}

-- Where the given range is an IPv4 network of at most 29 leading ones, the service range that is
-- computed is a text, and that text, parsed as a range again, is the service network.
pub parse_cidr-calculate :
    (w : World) (s : String) (net : IpNet)
    → parse_cidr w s ≡ ok net
    → net.bits ≡ 32
    → net.ones ≤ 29
    → (t : String) × (calculate_service_cluster_ip_range w s ≡ ok t)
      × (parse_cidr w t ≡ ok (service_net net))
unfolding calculate_service_cluster_ip_range show_net
parse_cidr-calculate w s net e bits le =
    let d = service_net-Dotted net (parse_cidr-Dotted w s net e bits) le in
    (
      show_net w (service_net net),
      rw (calculate_service_cluster_ip_range, e) refl,
      parse_cidr-show_net w (service_net net) d,
    )
