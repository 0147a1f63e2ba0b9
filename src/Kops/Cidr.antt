-- ===== src/Kops/Cidr.antt =====
-- `CalculateServiceClusterIPRange`, with `net.ParseCIDR`, `net.CIDRMask` and `IPNet.String` of Go's
-- standard library. IPv4 is parsed here; IPv6 addresses are the world's.
use kubernetes_kops_operator.Prelude.{
  ℕ, ◌+◌, ◌-◌, ◌*◌, ◌/◌, ◌^◌, String, ◌<>◌, Bool, true, false, Option, none, some, List, [], ◌∷◌,
  ltb, leb, eqb, ◌||◌, ◌&&◌, if◌then◌else◌, length, map,
}
use kubernetes_kops_operator.Prelude.Text.{cut, split, parse_decimal, show_decimal}
use kubernetes_kops_operator.Io.{Result, ok, err, panic, World, error}
use Prim.Native.Char.{code}
use Prim.Native.String.{count}
use text.Mathlib.Text.{starts_with}

-- An address with the length of its prefix; `bits` is 32 or 128.
pub record IpNet : Type 0 where
  pub ip : List ℕ
  pub ones : ℕ
  pub bits : ℕ

-- One field of a dotted address: one to three digits without a leading zero, at most 255.
unfoldable pub parse_octet : String → Option ℕ
parse_octet s = elim (parse_decimal s) [
  | none ↦ none
  | some n ↦ if (starts_with s "0" && ltb 1 (count s)) || ltb 255 n then none else some n
]

abbrev pub all_some : {A : Type 0} → List (Option A) → Option (List A)
all_some [] = some []
all_some (none ∷ l) = none
all_some (some a ∷ l) = elim (all_some l) [ none ↦ none | some r ↦ some (a ∷ r) ]

unfoldable pub parse_ip4 : String → Option (List ℕ)
unfolding split parse_octet parse_decimal
parse_ip4 s = elim (all_some (map parse_octet (split b'.' s))) [
  | none ↦ none
  | some bytes ↦ if eqb (length bytes) 4 then some bytes else none
]

-- One byte of a mask of `n` leading ones, applied to a byte.
abbrev pub mask_byte : ℕ → ℕ → ℕ
mask_byte n b = if leb 8 n then b else b / 2 ^ (8 - n) * 2 ^ (8 - n)

-- `ip.Mask(net.CIDRMask(n, bits))`
unfoldable pub mask_ip : ℕ → List ℕ → List ℕ
mask_ip n [] = []
mask_ip n (b ∷ bytes) = mask_byte n b ∷ mask_ip (n - 8) bytes

-- Whether the first `.` or `:` is a `:`, by which `netip.ParseAddr` chooses the version.
unfoldable pub is_ip6 : String → Bool
is_ip6 String.[] = false
is_ip6 (String.◌∷◌ c s) =
    let rest = is_ip6 s in
    if eqb (code c) b':' then true else if eqb (code c) b'.' then false else rest

abbrev pub parse_addr : World → String → Option (List ℕ × ℕ)
parse_addr w s =
    if is_ip6 s
    then elim (w.parse_ip6 s) [ none ↦ none | some bytes ↦ some (bytes, 128) ]
    else elim (parse_ip4 s) [ none ↦ none | some bytes ↦ some (bytes, 32) ]

abbrev pub with_prefix : String → Option (List ℕ × ℕ) → Option ℕ → Result IpNet
with_prefix s none n = err (error ("invalid CIDR address: " <> s))
with_prefix s (some (bytes, bits)) none = err (error ("invalid CIDR address: " <> s))
with_prefix s (some (bytes, bits)) (some n) =
    if leb n bits
    then ok (record { ip = mask_ip n bytes; ones = n; bits = bits })
    else err (error ("invalid CIDR address: " <> s))

-- The network of `net.ParseCIDR`.
unfoldable pub parse_cidr : World → String → Result IpNet
unfolding cut parse_ip4 mask_ip is_ip6
parse_cidr w s =
    let (addr, mask) = cut b'/' s in
    elim mask [
      | none ↦ err (error ("invalid CIDR address: " <> s))
      | some m ↦ with_prefix s (parse_addr w addr) (parse_decimal m)
    ]

abbrev pub show_ip4 : List ℕ → String
show_ip4 [] = ""
show_ip4 (b ∷ []) = show_decimal b
show_ip4 (b ∷ c ∷ l) = show_decimal b <> ("." <> show_ip4 (c ∷ l))

abbrev show_ip : World → ℕ → List ℕ → String
show_ip w bits ip = if eqb bits 32 then show_ip4 ip else w.show_ip6 ip

-- `net.CIDRMask` gives nil where the prefix is longer than the address, and a network with a nil
-- mask prints as `<nil>`.
unfoldable pub show_net : World → IpNet → String
unfolding show_decimal
show_net w net =
    if leb net.ones net.bits
    then show_ip w net.bits net.ip <> ("/" <> show_decimal net.ones)
    else "<nil>"

-- The service network: three bits longer than the given one, and at least 20 bits long.
unfoldable pub service_net : IpNet → IpNet
unfolding mask_ip
service_net net =
    let ones = net.ones + 3 in
    record {
      ip = mask_ip net.ones net.ip;
      ones = if ltb ones 20 then 20 else ones;
      bits = net.bits;
    }

unfoldable pub calculate_service_cluster_ip_range : World → String → Result String
unfolding parse_cidr service_net show_net
calculate_service_cluster_ip_range w s = elim (parse_cidr w s) [
  | ok net ↦ ok (show_net w (service_net net))
  | err e ↦ err e
  | panic ↦ panic
]
