-- ===== src/Kops/Dotted.antt =====
-- IPv4 networks: what their texts consist of, and what the parser gives back for them.
use mathlib.Core.Option.{some-injective}
use kubernetes_kops_operator.Prelude.{
  ℕ, suc, ◌-◌, ◌≤◌, ◌≡◌, refl, ap, sym, ◌∙◌, Bool, true, false, ◌||◌, Option, some, String, ◌<>◌,
  List, [], ◌∷◌, map, length, eqb, leb, arith, Bool-cases, Option-cases, inl, inr,
}
use kubernetes_kops_operator.Prelude.Text.{
  is_digit, cut, split, AllOf, AllOf-append, AllOf-weaken, differs, cut-append, split-append,
  split-last, show_decimal, parse_decimal,
}
use text.Mathlib.TextLemmas.{nil-append, cons-append}
use kubernetes_kops_operator.Io.{ok, World}
use kubernetes_kops_operator.Kops.Cidr.{
  IpNet, parse_octet, all_some, parse_ip4, mask_ip, is_ip6, parse_addr, parse_cidr, show_ip4,
  show_net,
}
use kubernetes_kops_operator.Kops.Octets.{
  parse_octet-show_decimal, parse_decimal-show_decimal, show_decimal-AllOf,
}
use kubernetes_kops_operator.Kops.Masks.{mask_byte-le, mask_byte-mask_byte}

abbrev pub Octets : List ℕ → Type 0
Octets [] = Unit
Octets (b ∷ l) = (b ≤ 255) × Octets l

parse_octet-le : (s : String) (b : ℕ) → parse_octet s ≡ some b → b ≤ 255
unfolding parse_octet
parse_octet-le s b e = elim (Option-cases (parse_decimal s)) [
  | inl y ↦ absurd (ground (arith, y, e))
  | inr (n, y) ↦ ground (arith, y, e)
]

all_some-Octets : (l : List String) (r : List ℕ) → all_some (map parse_octet l) ≡ some r → Octets r
all_some-Octets [] r e = rw (sym (some-injective _ _ e)) tt
all_some-Octets (s ∷ l) r e = elim (Option-cases (parse_octet s)) [
  | inl y ↦ absurd (ground (arith, y, e))
  | inr (b, y) ↦ elim (Option-cases (all_some (map parse_octet l))) [
    | inl z ↦ absurd (ground (arith, y, z, e))
    | inr (q, z) ↦
        (let value : all_some (map parse_octet (s ∷ l)) ≡ some (b ∷ q) = rw (y, z) refl in
          rw (sym (some-injective _ _ (sym value ∙ e)))
            (parse_octet-le s b y, all_some-Octets l q z))
  ]
]

pub parse_ip4-Octets : (s : String) (r : List ℕ) → parse_ip4 s ≡ some r → Octets r × (length r ≡ 4)
unfolding parse_ip4
parse_ip4-Octets s r e = elim (Option-cases (all_some (map parse_octet (split b'.' s)))) [
  | inl y ↦ absurd (ground (arith, y, e))
  | inr (q, y) ↦ elim (Bool-cases (eqb (length q) 4)) [
    | inl four ↦
        (let value : parse_ip4 s ≡ some q = rw (parse_ip4, y, four) refl in
          rw (sym (some-injective _ _ (sym value ∙ e)))
            (all_some-Octets (split b'.' s) q y, ground (arith, four)))
    | inr other ↦ absurd (ground (arith, y, other, e))
  ]
]

-- The characters of a dotted address.
abbrev dotted : ℕ → Bool
dotted c = is_digit c || eqb c b'.'

digits-dotted : (b : ℕ) → b ≤ 255 → AllOf dotted (show_decimal b)
digits-dotted b le =
    AllOf-weaken is_digit dotted (show_decimal b) (λ c e. ground (arith, e))
      (show_decimal-AllOf b le)

show_ip4-AllOf : (l : List ℕ) → Octets l → AllOf dotted (show_ip4 l)
show_ip4-AllOf [] o = tt
show_ip4-AllOf (b ∷ []) o = digits-dotted b o.0
show_ip4-AllOf (b ∷ c ∷ l) o =
    AllOf-append dotted (show_decimal b) ("." <> show_ip4 (c ∷ l)) (digits-dotted b o.0)
      (AllOf-append dotted "." (show_ip4 (c ∷ l)) (refl, tt) (show_ip4-AllOf (c ∷ l) o.1))

is_ip6-dotted : (s : String) → AllOf dotted s → is_ip6 s ≡ false
unfolding is_ip6
is_ip6-dotted String.[] a = refl
is_ip6-dotted (String.◌∷◌ c s) a =
    let rest = is_ip6-dotted s a.1 in let head = a.0 in ground (arith, rest, head)

digits-differ :
    (sep : ℕ) → is_digit sep ≡ false → (b : ℕ) → b ≤ 255 → AllOf (differs sep) (show_decimal b)
digits-differ sep e b le =
    AllOf-weaken is_digit (differs sep) (show_decimal b) (λ c d. ground (arith, d, e))
      (show_decimal-AllOf b le)

dot-append : (s : String) → "." <> s ≡ String.◌∷◌ "." s
dot-append s = cons-append "." "" s ∙ ap (String.◌∷◌ ".") (nil-append s)

all_some-some :
    (b : ℕ) (l : List (Option ℕ)) (r : List ℕ)
    → all_some l ≡ some r
    → all_some (some b ∷ l) ≡ some (b ∷ r)
all_some-some b l r e = rw (all_some, e) refl

split-show_ip4 :
    (b : ℕ) (l : List ℕ)
    → Octets (b ∷ l)
    → all_some (map parse_octet (split b'.' (show_ip4 (b ∷ l)))) ≡ some (b ∷ l)
split-show_ip4 b [] o =
    rw
      (
        split-last b'.' (show_decimal b) (digits-differ b'.' refl b o.0),
        parse_octet-show_decimal b o.0,
      )
      refl
split-show_ip4 b (c ∷ l) o =
    rw
      (
        dot-append (show_ip4 (c ∷ l)),
        split-append b'.' (show_decimal b) (show_ip4 (c ∷ l)) _ refl
            (digits-differ b'.' refl b o.0),
        parse_octet-show_decimal b o.0,
      )
      (all_some-some b (map parse_octet (split b'.' (show_ip4 (c ∷ l)))) (c ∷ l)
        (split-show_ip4 c l o.1))

pub mask_ip-Octets : (n : ℕ) (l : List ℕ) → Octets l → Octets (mask_ip n l)
unfolding mask_ip
mask_ip-Octets n [] o = tt
mask_ip-Octets n (b ∷ l) o =
    ((let le = mask_byte-le n b in omega arith), mask_ip-Octets (n - 8) l o.1)

pub length-mask_ip : (n : ℕ) (l : List ℕ) → length (mask_ip n l) ≡ length l
unfolding mask_ip
length-mask_ip n [] = refl
length-mask_ip n (b ∷ l) = ap suc (length-mask_ip (n - 8) l)

pub mask_ip-mask_ip : (n m : ℕ) (l : List ℕ) → n ≤ m → mask_ip m (mask_ip n l) ≡ mask_ip n l
unfolding mask_ip
mask_ip-mask_ip n m [] le = refl
mask_ip-mask_ip n m (b ∷ l) le =
    λ i. mask_byte-mask_byte n m b le i ∷ mask_ip-mask_ip (n - 8) (m - 8) l (omega arith) i

slash-append : (s : String) → "/" <> s ≡ String.◌∷◌ "/" s
slash-append s = cons-append "/" "" s ∙ ap (String.◌∷◌ "/") (nil-append s)

parse_ip4-show_ip4 : (l : List ℕ) → Octets l → length l ≡ 4 → parse_ip4 (show_ip4 l) ≡ some l
unfolding parse_ip4
parse_ip4-show_ip4 [] o e = absurd (omega arith)
parse_ip4-show_ip4 (b ∷ l) o e =
    let four : eqb (length (b ∷ l)) 4 ≡ true = ground (arith, e) in
    rw (parse_ip4, split-show_ip4 b l o, four) refl

-- A dotted address with a prefix and no bits beyond it, as `net.ParseCIDR` gives it.
pub record Dotted (net : IpNet) : Type 0 where
  pub octets : Octets net.ip
  pub four : length net.ip ≡ 4
  pub bits : net.bits ≡ 32
  pub ones : net.ones ≤ 32
  pub masked : mask_ip net.ones net.ip ≡ net.ip

parse_addr-show_ip4 :
    (w : World) (l : List ℕ) → Octets l → length l ≡ 4 → parse_addr w (show_ip4 l) ≡ some (l, 32)
parse_addr-show_ip4 w l o e =
    rw (is_ip6-dotted (show_ip4 l) (show_ip4-AllOf l o), parse_ip4-show_ip4 l o e) refl

show_net-Dotted :
    (w : World) (net : IpNet)
    → Dotted net
    → show_net w net ≡ show_ip4 net.ip <> ("/" <> show_decimal net.ones)
unfolding show_net
show_net-Dotted w net d =
    let short : leb net.ones net.bits ≡ true = ground (arith, d.ones, d.bits) in
    let ip4 : eqb net.bits 32 ≡ true = ground (arith, d.bits) in rw (show_net, short, ip4) refl

cut-show_net :
    (w : World) (net : IpNet)
    → Dotted net
    → cut b'/' (show_net w net) ≡ (show_ip4 net.ip, some (show_decimal net.ones))
cut-show_net w net d =
    rw (show_net-Dotted w net d, slash-append (show_decimal net.ones))
      (cut-append b'/' (show_ip4 net.ip) (show_decimal net.ones) _ refl (
        AllOf-weaken dotted (differs b'/') (show_ip4 net.ip) (λ c e. ground (arith, e))
          (show_ip4-AllOf net.ip d.octets)))

pub parse_cidr-show_net :
    (w : World) (net : IpNet) → Dotted net → parse_cidr w (show_net w net) ≡ ok net
unfolding parse_cidr
parse_cidr-show_net w net d =
    let short : leb net.ones 32 ≡ true = ground (arith, d.ones) in
    rw
      (
        parse_cidr,
        ap (λ c. c.1) (cut-show_net w net d),
        ap (λ c. c.0) (cut-show_net w net d),
        parse_addr-show_ip4 w net.ip d.octets d.four,
        parse_decimal-show_decimal net.ones (let le = d.ones in omega arith),
        short,
      )
      (λ i. ok (record { ip = d.masked i; ones = net.ones; bits = sym d.bits i }))
