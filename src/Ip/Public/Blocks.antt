-- ===== src/Ip/Public/Blocks.antt =====
-- The tests of ip.go against the blocks of the IANA special-purpose registries.
use randomizer.Base.{
  ℕ, ◌+◌, ◌-◌, ◌*◌, ◌/◌, ◌^◌, ◌<◌, ◌≡◌, refl, ◌↔◌, ◌⊎◌, inl, inr, false, ◌||◌, arith, leb, ◌==◌,
  if◌then◌else◌, holds_below, table_eq, get_or, u8, IsU32, ◌>>>◌,
}
use randomizer.Base.Bits.{bit_and_field}
use randomizer.Ip.Public.{ipv4_first_octet, is_public_ipv4_slow, is_public_ipv4, is_public_ipv6}

-- `x` lies in the block of the addresses that share their first `len` bits with `a.b.c.d`.
abbrev pub quad : ℕ → ℕ → ℕ → ℕ → ℕ
quad a b c d = a * 2 ^ 24 + b * 2 ^ 16 + c * 2 ^ 8 + d

abbrev pub InBlock : ℕ → ℕ → ℕ → Type 0
InBlock base len x = x / 2 ^ (32 - len) ≡ base / 2 ^ (32 - len)

-- RFC 6890 and the registries behind it, in the order of the addresses.
abbrev pub IsSpecialIpv4 : ℕ → Type 0
IsSpecialIpv4 x =
    InBlock (quad 0 0 0 0) 8 x
    ⊎ InBlock (quad 10 0 0 0) 8 x
    ⊎ InBlock (quad 100 64 0 0) 10 x
    ⊎ InBlock (quad 127 0 0 0) 8 x
    ⊎ InBlock (quad 169 254 0 0) 16 x
    ⊎ InBlock (quad 172 16 0 0) 12 x
    ⊎ InBlock (quad 192 0 0 0) 24 x
    ⊎ InBlock (quad 192 0 2 0) 24 x
    ⊎ InBlock (quad 192 88 99 0) 24 x
    ⊎ InBlock (quad 192 168 0 0) 16 x
    ⊎ InBlock (quad 198 18 0 0) 15 x
    ⊎ InBlock (quad 198 51 100 0) 24 x
    ⊎ InBlock (quad 203 0 113 0) 24 x
    ⊎ InBlock (quad 224 0 0 0) 3 x

class_of : ℕ → ℕ
class_of a =
    if a == 0 || a == 10 || a == 127 || leb 224 a
    then 1
    else if a == 100 || a == 169 || a == 172 || a == 192 || a == 198 || a == 203
    then 2
    else 0

first_octet_table : (a : ℕ) → a < 256 → get_or ipv4_first_octet a 0 ≡ class_of a
unfolding ipv4_first_octet class_of holds_below
first_octet_table = table_eq (λ a. get_or ipv4_first_octet a 0) class_of 256 refl

slow-IsSpecialIpv4 :
    (x : ℕ)
    → IsU32 x
    → class_of (x / 2 ^ 24) ≡ 2
    → (is_public_ipv4_slow x ≡ false) ↔ IsSpecialIpv4 x
unfolding is_public_ipv4_slow class_of
slow-IsSpecialIpv4 x h two =
    let b = u8 (x >>> 16) in
    (
      λ e. ground (arith, bit_and_field 6 2 b, bit_and_field 4 4 b, bit_and_field 1 7 b),
      λ s. ground (arith, bit_and_field 6 2 b, bit_and_field 4 4 b, bit_and_field 1 7 b),
    )

-- The other first octets are public as a whole, or special as a whole.
whole-IsSpecialIpv4 :
    (x : ℕ)
    → IsU32 x
    → (class_of (x / 2 ^ 24) ≡ 1 → IsSpecialIpv4 x)
      × (class_of (x / 2 ^ 24) ≡ 0 → ¬ IsSpecialIpv4 x)
unfolding class_of
whole-IsSpecialIpv4 x h = (λ e. ground arith, λ e s. ground arith)

class_cases : (a : ℕ) → (class_of a ≡ 0) ⊎ (class_of a ≡ 1) ⊎ (class_of a ≡ 2)
unfolding class_of
class_cases a = ground arith

-- For every 32-bit address the test of the code, by its table and by the octets behind it, answers
-- false exactly inside the special-purpose blocks.
pub is_public_ipv4-IsSpecialIpv4 : (x : ℕ) → IsU32 x → (is_public_ipv4 x ≡ false) ↔ IsSpecialIpv4 x
unfolding is_public_ipv4
is_public_ipv4-IsSpecialIpv4 x h =
    rw (is_public_ipv4, first_octet_table (x / 2 ^ 24) (omega arith))
      elim (class_cases (x / 2 ^ 24)) [
        | inl e ↦ rw e (λ p. cc, λ s. absurd ((whole-IsSpecialIpv4 x h).1 e s))
        | inr (inl e) ↦ rw e (λ p. (whole-IsSpecialIpv4 x h).0 e, λ s. refl)
        | inr (inr e) ↦ rw e (slow-IsSpecialIpv4 x h e)
      ]

-- The high half `hi` of an address lies in the block of the `len` first bits of `base`.
abbrev pub InBlock6 : ℕ → ℕ → ℕ → Type 0
InBlock6 base len hi = hi / 2 ^ (64 - len) ≡ base / 2 ^ (64 - len)

-- The registry's blocks: 2001::/23, 2001:db8::/32, 2002::/16, 2620:4f:8000::/48, 3fff::/20, 5f00::/16.
abbrev pub IsSpecialIpv6 : ℕ → Type 0
IsSpecialIpv6 hi =
    InBlock6 0x2001_0000_0000_0000 23 hi
    ⊎ InBlock6 0x2001_0db8_0000_0000 32 hi
    ⊎ InBlock6 0x2002_0000_0000_0000 16 hi
    ⊎ InBlock6 0x2620_004f_8000_0000 48 hi
    ⊎ InBlock6 0x3fff_0000_0000_0000 20 hi
    ⊎ InBlock6 0x5f00_0000_0000_0000 16 hi

-- The test on the high half of an address answers false exactly inside the registry's IPv6 blocks.
pub is_public_ipv6-IsSpecialIpv6 : (hi : ℕ) → (is_public_ipv6 hi ≡ false) ↔ IsSpecialIpv6 hi
unfolding is_public_ipv6
is_public_ipv6-IsSpecialIpv6 hi = (λ e. ground arith, λ s. ground arith)
