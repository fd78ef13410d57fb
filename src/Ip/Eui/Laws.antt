-- ===== src/Ip/Eui/Laws.antt =====
-- Addresses with the interface identifier of a MAC address.
use randomizer.Base.{
  ℕ, ◌+◌, ◌-◌, ◌/◌, ◌%◌, ◌<◌, bit_xor, ◌≡◌, refl, ap, ◌∙◌, ◌⊎◌, true, ◌||◌, Option, none, some,
  List, [], ◌∷◌, ◌++◌, arith, ◌==◌, if◌then◌else◌, holds_below, table_eq, length, get_or, take,
  drop, length-append, length-take, take_prefix, drop_prefix, All-take, All, All-append, IsByte,
  IsU64, Returns, Returns-bind,
}
use randomizer.Ip.{
  IpKind, ipv6_global, ipv6_link_local, ipv6_site_local, ipv6_unique_local, ipv6_documentation,
  ipv6_public, ip_len,
}
use randomizer.Network.{Written, fixed_bytes, IsHeld, fixed_bytes_lem}
use randomizer.Ip.Public.Blocks.{InBlock6, IsSpecialIpv6}
use randomizer.Ip.Fill.{fill_ip}
use randomizer.Ip.Fill.Spec.{hi64, InKind, IsAddress, Supplies}
use randomizer.Ip.Fill.InKind.{fill_ip-Returns}
use randomizer.Ip.Eui.{put_modified_eui64, takes_eui64, ipv6_eui64}

-- The prefixes of the kinds that take an interface identifier.
abbrev pub InPrefix : IpKind → ℕ → Type 0
InPrefix ipv6_global hi = InBlock6 0x2000_0000_0000_0000 3 hi
InPrefix ipv6_link_local hi = InBlock6 0xfe80_0000_0000_0000 64 hi
InPrefix ipv6_site_local hi = InBlock6 0xfec0_0000_0000_0000 10 hi
InPrefix ipv6_unique_local hi = InBlock6 0xfd00_0000_0000_0000 8 hi
InPrefix ipv6_documentation hi = InBlock6 0x2001_0db8_0000_0000 32 hi
InPrefix ipv6_public hi = InBlock6 0x2000_0000_0000_0000 3 hi × ¬ IsSpecialIpv6 hi
InPrefix _ hi = ⊥

-- The second lowest bit of a byte, the U/L bit of the first one, inverted.
abbrev pub invert_local : ℕ → ℕ
invert_local b = if b / 2 % 2 == 0 then b + 2 else b - 2

flip_table : (b : ℕ) → b < 256 → bit_xor b 0x02 ≡ invert_local b
unfolding holds_below
flip_table = table_eq (λ b. bit_xor b 0x02) invert_local 256 refl

-- RFC 4291 Appendix A.
pub put_modified_eui64-mac :
    (a b c d e f : ℕ)
    → a < 256
    → put_modified_eui64 (a ∷ b ∷ c ∷ d ∷ e ∷ f ∷ [])
      ≡ invert_local a ∷ b ∷ c ∷ 0xff ∷ 0xfe ∷ d ∷ e ∷ f ∷ []
unfolding put_modified_eui64
put_modified_eui64-mac a b c d e f h = rw (flip_table a h)

pub put_modified_eui64-eui :
    (a b c d e f g h : ℕ)
    → a < 256
    → put_modified_eui64 (a ∷ b ∷ c ∷ d ∷ e ∷ f ∷ g ∷ h ∷ [])
      ≡ invert_local a ∷ b ∷ c ∷ d ∷ e ∷ f ∷ g ∷ h ∷ []
unfolding put_modified_eui64
put_modified_eui64-eui a b c d e f g h lt = rw (flip_table a lt)

invert_local-IsByte : (b : ℕ) → b < 256 → invert_local b < 256
invert_local-IsByte b h = ground arith

-- Where the identifier stands in memory: eight bytes for either kind of source address.
pub put_modified_eui64-IsByte :
    (mac : List ℕ)
    → All IsByte mac
    → (length mac ≡ 6) ⊎ (length mac ≡ 8)
    → (length (put_modified_eui64 mac) ≡ 8) × All IsByte (put_modified_eui64 mac)
put_modified_eui64-IsByte (a ∷ b ∷ c ∷ d ∷ e ∷ f ∷ []) h len =
    rw (put_modified_eui64-mac a b c d e f h.0) (refl, omega (arith, invert_local-IsByte a h.0))
put_modified_eui64-IsByte (a ∷ b ∷ c ∷ d ∷ e ∷ f ∷ g ∷ k ∷ []) h len =
    rw (put_modified_eui64-eui a b c d e f g k h.0) (refl, omega (arith, invert_local-IsByte a h.0))
put_modified_eui64-IsByte _ h len = absurd (omega arith)

-- A second inversion of the bit and leaving out 0xff 0xfe give a MAC address back.
unfoldable pub mac_of : List ℕ → List ℕ
mac_of eui = invert_local (get_or eui 0 0) ∷ (take 2 (drop 1 eui) ++ drop 5 eui)

-- The modified EUI-64 of six bytes holds all of them: they are read back by inverting the U/L bit
-- again and leaving out the two bytes in the middle.
pub mac_of-put_modified_eui64 :
    (mac : List ℕ) → All IsByte mac → length mac ≡ 6 → mac_of (put_modified_eui64 mac) ≡ mac
unfolding mac_of
mac_of-put_modified_eui64 (a ∷ b ∷ c ∷ d ∷ e ∷ f ∷ []) h len =
    rw (put_modified_eui64-mac a b c d e f h.0)
      (ap (λ t. t ∷ b ∷ c ∷ d ∷ e ∷ f ∷ []) (invert_twice a))
  where
    invert_twice : (a : ℕ) → invert_local (invert_local a) ≡ a
    invert_twice a = ground arith
mac_of-put_modified_eui64 _ h len = absurd (omega arith)

-- The kinds for which an interface identifier is documented.
abbrev pub HasIdentifier : IpKind → Type 0
HasIdentifier ipv6_link_local = Unit {0}
HasIdentifier ipv6_global = Unit {0}
HasIdentifier ipv6_public = Unit {0}
HasIdentifier ipv6_unique_local = Unit {0}
HasIdentifier ipv6_site_local = Unit {0}
HasIdentifier ipv6_documentation = Unit {0}
HasIdentifier _ = ⊥

-- Such a kind is accepted, is one of IPv6, and has its prefix in the first half of the address.
takes_eui64_lem :
    (kind : IpKind)
    → HasIdentifier kind
    → (takes_eui64 kind ≡ true)
      × (ip_len kind ≡ 16)
      × ((b : List ℕ) → InKind kind b → InPrefix kind (hi64 b))
unfolding takes_eui64 ip_len
takes_eui64_lem ipv6_global k = (refl, refl, λ b h. h)
takes_eui64_lem ipv6_link_local k = (refl, refl, λ b h. h)
takes_eui64_lem ipv6_site_local k = (refl, refl, λ b h. h)
takes_eui64_lem ipv6_unique_local k = (refl, refl, λ b h. h)
takes_eui64_lem ipv6_documentation k = (refl, refl, λ b h. h)
takes_eui64_lem ipv6_public k = (refl, refl, λ b h. (h.0, h.1))
takes_eui64_lem _ k = absurd k

-- RFC 4291 Appendix A: the U/L bit inverted, and 0xff 0xfe in the middle of a MAC address.
abbrev pub identifier_of : List ℕ → List ℕ
identifier_of (a ∷ b ∷ c ∷ d ∷ e ∷ f ∷ []) = invert_local a ∷ b ∷ c ∷ 0xff ∷ 0xfe ∷ d ∷ e ∷ f ∷ []
identifier_of (a ∷ rest) = invert_local a ∷ rest
identifier_of [] = []

pub put_modified_eui64_lem :
    (mac : List ℕ)
    → All IsByte mac
    → (length mac ≡ 6) ⊎ (length mac ≡ 8)
    → put_modified_eui64 mac ≡ identifier_of mac
put_modified_eui64_lem (a ∷ b ∷ c ∷ d ∷ e ∷ f ∷ []) h len = put_modified_eui64-mac a b c d e f h.0
put_modified_eui64_lem (a ∷ b ∷ c ∷ d ∷ e ∷ f ∷ g ∷ k ∷ []) h len =
    put_modified_eui64-eui a b c d e f g k h.0
put_modified_eui64_lem _ h len = absurd (omega arith)

-- The address that is written: its prefix from the kind, its identifier from `mac`.
abbrev pub IsEui64Address : List ℕ → IpKind → List ℕ → Option Written → Type 0
IsEui64Address array kind mac none = ⊥
IsEui64Address array kind mac (some w) =
    (length w.bytes ≡ 16)
    × All IsByte w.bytes
    × InPrefix kind (hi64 w.bytes)
    × (drop 8 w.bytes ≡ identifier_of mac)
    × IsHeld array w.bytes w.array

-- A kind with an identifier, a MAC address or EUI-64 of bytes, and words that supply the kind give
-- an address whose prefix is in the block of the kind and whose identifier is that of RFC 4291, the
-- modified EUI-64 of the MAC address. It is written to the front of the caller's array and nowhere
-- else, and to no part of it where the array has no room.
pub ipv6_eui64-Returns :
    (array : List ℕ) (kind : IpKind) (mac : List ℕ) (ws : List ℕ)
    → HasIdentifier kind
    → (length mac ≡ 6) ⊎ (length mac ≡ 8)
    → All IsByte mac
    → All IsU64 ws
    → Supplies kind ws
    → Returns (IsEui64Address array kind mac) (ipv6_eui64 array kind mac ws)
unfolding ipv6_eui64
ipv6_eui64-Returns array kind mac ws takes len bytes hs live =
    rw (accepted, right_length)
      (Returns-bind (IsAddress kind) (IsEui64Address array kind mac) (fill_ip kind ws) _
        (fill_ip-Returns kind ws hs live) (λ b rest h hr. (address b h, hr)))
  where
    accepted : takes_eui64 kind ≡ true
    accepted = (takes_eui64_lem kind takes).0

    right_length : (length mac == 6 || length mac == 8) ≡ true
    right_length = ground arith

    address :
        (b : List ℕ)
        → IsAddress kind b
        → IsEui64Address array kind mac
            (some (fixed_bytes array (take 8 b ++ put_modified_eui64 mac)))
    address b h =
        let m = put_modified_eui64-IsByte mac bytes len in
        let l : length b ≡ 16 = h.len ∙ (takes_eui64_lem kind takes).1 in
        let l8 : length (take 8 b) ≡ 8 = omega (arith, length-take 8 b) in
        rw
          (
            (fixed_bytes_lem array (take 8 b ++ put_modified_eui64 mac)).0,
            take_prefix 8 (take 8 b) (put_modified_eui64 mac) l8,
            drop_prefix 8 (take 8 b) (put_modified_eui64 mac) l8,
          )
          (
            omega (arith, length-append (take 8 b) (put_modified_eui64 mac), m.0),
            All-append IsByte (take 8 b) (put_modified_eui64 mac) (All-take IsByte 8 b h.bytes) m.1,
            (takes_eui64_lem kind takes).2 b h.kind_of,
            put_modified_eui64_lem mac bytes len,
            (fixed_bytes_lem array (take 8 b ++ put_modified_eui64 mac)).1,
          )
