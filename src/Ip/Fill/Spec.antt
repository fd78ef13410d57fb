-- ===== src/Ip/Fill/Spec.antt =====
-- What the documentation of ip.go promises of each kind, on the number that an address stands for.
use randomizer.Base.{
  ℕ, ◌+◌, ◌-◌, ◌*◌, ◌/◌, ◌%◌, ◌^◌, ◌≤◌, ◌≡◌, ◌≢◌, ◌⊎◌, List, length, take, drop, All, Any, AnyThen,
  IsByte, big_endian,
}
use randomizer.Ip.{
  IpKind, ipv4_private, ipv4_link_local, ipv4_multicast, ipv4_public, ipv6_global, ipv6_link_local,
  ipv6_site_local, ipv6_unique_local, ipv6_interface_local_multicast, ipv6_link_local_multicast,
  ipv6_admin_local_multicast, ipv6_site_local_multicast, ipv6_org_local_multicast,
  ipv6_global_multicast, ipv4_loopback, ipv4_cgnat, ipv4_documentation, ipv6_documentation,
  ipv6_public, ipv6_realm_local_multicast, ip_len,
}
use randomizer.Number.Accepts.{Accepts}
use randomizer.Ip.Public.Blocks.{quad, InBlock, IsSpecialIpv4, InBlock6, IsSpecialIpv6}

-- The halves of a 16-byte address.
abbrev pub hi64 : List ℕ → ℕ
hi64 b = big_endian (take 8 b)

abbrev pub lo64 : List ℕ → ℕ
lo64 b = big_endian (drop 8 b)

-- An interface identifier is neither the subnet-router anycast nor one reserved by RFC 2526, whose
-- last seven bits are free.
abbrev pub IsAnycast : ℕ → Type 0
IsAnycast lo =
    (lo ≡ 0)
    ⊎ (lo / 2 ^ 7 ≡ 0xfdff_ffff_ffff_ff80 / 2 ^ 7)
    ⊎ (lo / 2 ^ 7 ≡ 0xffff_ffff_ffff_ff80 / 2 ^ 7)

abbrev pub InKind : IpKind → List ℕ → Type 0
InKind ipv4_private b =
    InBlock (quad 10 0 0 0) 8 (big_endian b)
    ⊎ InBlock (quad 172 16 0 0) 12 (big_endian b)
    ⊎ InBlock (quad 192 168 0 0) 16 (big_endian b)
InKind ipv4_link_local b = (quad 169 254 1 0 ≤ big_endian b) × (big_endian b ≤ quad 169 254 254 255)
InKind ipv4_multicast b = InBlock (quad 224 0 0 0) 4 (big_endian b)
InKind ipv4_public b = ¬ IsSpecialIpv4 (big_endian b)
InKind ipv4_loopback b = (quad 127 0 0 1 ≤ big_endian b) × (big_endian b ≤ quad 127 255 255 254)
InKind ipv4_cgnat b = InBlock (quad 100 64 0 0) 10 (big_endian b)
InKind ipv4_documentation b =
    InBlock (quad 192 0 2 0) 24 (big_endian b)
    ⊎ InBlock (quad 198 51 100 0) 24 (big_endian b)
    ⊎ InBlock (quad 203 0 113 0) 24 (big_endian b)
InKind ipv6_global b = InBlock6 0x2000_0000_0000_0000 3 (hi64 b)
InKind ipv6_link_local b = InBlock6 0xfe80_0000_0000_0000 64 (hi64 b)
InKind ipv6_site_local b = InBlock6 0xfec0_0000_0000_0000 10 (hi64 b)
InKind ipv6_unique_local b = InBlock6 0xfd00_0000_0000_0000 8 (hi64 b)
InKind ipv6_documentation b = InBlock6 0x2001_0db8_0000_0000 32 (hi64 b)
InKind ipv6_public b =
    InBlock6 0x2000_0000_0000_0000 3 (hi64 b) × ¬ IsSpecialIpv6 (hi64 b) × ¬ IsAnycast (lo64 b)
InKind ipv6_interface_local_multicast b = InBlock6 0xff11_0000_0000_0000 16 (hi64 b)
InKind ipv6_link_local_multicast b = InBlock6 0xff12_0000_0000_0000 16 (hi64 b)
InKind ipv6_realm_local_multicast b = InBlock6 0xff13_0000_0000_0000 16 (hi64 b)
InKind ipv6_admin_local_multicast b = InBlock6 0xff14_0000_0000_0000 16 (hi64 b)
InKind ipv6_site_local_multicast b = InBlock6 0xff15_0000_0000_0000 16 (hi64 b)
InKind ipv6_org_local_multicast b = InBlock6 0xff18_0000_0000_0000 16 (hi64 b)
InKind ipv6_global_multicast b = InBlock6 0xff1e_0000_0000_0000 16 (hi64 b)
InKind _ b = Unit {0}

-- An address of the kind: its length, its bytes, its block.
pub record IsAddress (kind : IpKind) (b : List ℕ) : Type 0 where
  pub len : length b ≡ ip_len kind
  pub bytes : All IsByte b
  pub kind_of : InKind kind b

-- Words on which a kind ends. Each is met by all but a small part of the words.
abbrev pub Supplies : IpKind → List ℕ → Type 0
Supplies ipv4_link_local ws = Any (λ x. (x % 256 ≢ 0) × (x % 256 ≢ 255)) ws
Supplies ipv4_public ws = Any (λ x. ¬ IsSpecialIpv4 (x % 2 ^ 32)) ws
Supplies ipv4_loopback ws = Any (λ x. (x % 2 ^ 24 ≢ 0) × (x % 2 ^ 24 ≢ 2 ^ 24 - 1)) ws
Supplies ipv4_documentation ws = Any (Accepts 768) ws
Supplies ipv6_public ws =
    AnyThen (λ x. ¬ IsSpecialIpv6 (0x2000_0000_0000_0000 + x % 2 ^ 61)) (λ x. ¬ IsAnycast x) ws
Supplies ipv6_link_local ws = 1 ≤ length ws
Supplies kind ws = ip_len kind ≤ 8 * length ws
