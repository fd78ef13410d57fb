-- ===== src/Examples/Cidr.antt =====
-- cidr.go and netaddr.go on concrete words and addresses.
use randomizer.Base.{
  ℕ, ◌-◌, ◌/◌, ◌^◌, ◌≡◌, refl, ◌⊎◌, none, some, List, [], ◌∷◌, ◌++◌, arith, take, drop, u32,
  and_not, put_uint32, put_uint64, big_endian, Returns,
}
use randomizer.Network.{fixed_bytes}
use randomizer.Cidr.{ipv4_cidr, ipv6_cidr, IpNet, cidr, to4, to16, ip_in_cidr}
use randomizer.Cidr.Prefix.{IsNetwork, cidr-Returns}
use randomizer.Cidr.Inside.{IsInside, ip_in_cidr_v4, ip_in_cidr_v6}
use randomizer.Cidr.Refusals.{IsValidNet, IsAddressOf, ip_in_cidr_rejects}
use randomizer.Netaddr.{from4, from16, ones32_shl, addr_in}
use randomizer.Netaddr.Inside.{SharesPrefix, addr_in_v4, addr_in_v6}

abbrev two_words : List ℕ
two_words = 0x0102_0304_0506_0708 ∷ 0x1112_1314_1516_1718 ∷ []

abbrev ten_v4 : List ℕ
ten_v4 = 10 ∷ 1 ∷ 2 ∷ 3 ∷ []

abbrev documentation_v6 : List ℕ
documentation_v6 = 0x20 ∷ 1 ∷ 0x0d ∷ 0xb8 ∷ 0 ∷ 0 ∷ 0 ∷ 0 ∷ 0 ∷ 0 ∷ 0 ∷ 0 ∷ 0 ∷ 0 ∷ 0 ∷ 0 ∷ []

abbrev mask_v6 : List ℕ
mask_v6 = 0xff ∷ 0xff ∷ 0xff ∷ 0xff ∷ 0 ∷ 0 ∷ 0 ∷ 0 ∷ 0 ∷ 0 ∷ 0 ∷ 0 ∷ 0 ∷ 0 ∷ 0 ∷ 0 ∷ []

twelve_bits :
    cidr ipv4_cidr 12 (0xffff_ffff_ffff_ffff ∷ [])
    ≡ some (record { ip = 255 ∷ 240 ∷ 0 ∷ 0 ∷ []; mask = 255 ∷ 240 ∷ 0 ∷ 0 ∷ [] }, [])
unfolding cidr
twelve_bits = refl

cidr-Returns_example : Returns (IsNetwork ipv6_cidr 61 16) (cidr ipv6_cidr 61 two_words)
cidr-Returns_example = cidr-Returns ipv6_cidr 61 two_words (omega arith) (omega arith)

ip_in_cidr_v4_example :
    (v : ℕ) × (ip_in_cidr []
        (some (record { ip = ten_v4; mask = 255 ∷ 240 ∷ 0 ∷ 0 ∷ [] }))
        (77 ∷ [])
      ≡ some (some (fixed_bytes [] (put_uint32 v)), []))
    × (big_endian (put_uint32 v) ≡ v)
    × IsInside (big_endian ten_v4) (big_endian (255 ∷ 240 ∷ 0 ∷ 0 ∷ [])) (u32 77) v
unfolding to4
ip_in_cidr_v4_example =
    ip_in_cidr_v4 [] ten_v4 (255 ∷ 240 ∷ 0 ∷ 0 ∷ []) ten_v4 [] 77 refl as4 (omega arith)
  where
    as4 : to4 ten_v4 ≡ some ten_v4
    as4 = refl

ip_in_cidr_v6_example :
    (hi lo : ℕ) × (ip_in_cidr []
        (some (record { ip = documentation_v6; mask = mask_v6 }))
        (77 ∷ 88 ∷ [])
      ≡ some (some (fixed_bytes [] (put_uint64 hi ++ put_uint64 lo)), []))
    × (big_endian (put_uint64 hi) ≡ hi)
    × (big_endian (put_uint64 lo) ≡ lo)
    × IsInside (big_endian (take 8 documentation_v6)) (big_endian (take 8 mask_v6)) 77 hi
    × IsInside (big_endian (drop 8 documentation_v6)) (big_endian (drop 8 mask_v6)) 88 lo
unfolding to16
ip_in_cidr_v6_example =
    ip_in_cidr_v6 [] documentation_v6 mask_v6 documentation_v6 [] 77 88 refl as16 (omega arith)
      (omega arith) (omega arith)
  where
    as16 : to16 documentation_v6 ≡ some documentation_v6
    as16 = refl

-- An IPv4 mask on an IPv6 address that maps none of IPv4.
abbrev mixed_net : IpNet
mixed_net = record { ip = documentation_v6; mask = 255 ∷ 0 ∷ 0 ∷ 0 ∷ [] }

ip_in_cidr_rejects_example :
    (ip_in_cidr [] none (1 ∷ []) ≡ some (none, 1 ∷ []))
    × (((¬ IsValidNet mixed_net) × (ip_in_cidr [] (some mixed_net) (1 ∷ []) ≡ some (none, 1 ∷ [])))
        ⊎ (IsValidNet mixed_net × IsAddressOf 4 (ip_in_cidr [] (some mixed_net) (1 ∷ []))))
ip_in_cidr_rejects_example = ip_in_cidr_rejects [] (1 ∷ []) mixed_net

addr_in_v4_example :
    (v : ℕ) × (addr_in (record { addr = from4 ten_v4; bits = some 12 }) (77 ∷ [])
      ≡ some (from4 (put_uint32 v), []))
    × (big_endian (put_uint32 v) ≡ v)
    × (v / 2 ^ (32 - 12) ≡ big_endian ten_v4 / 2 ^ (32 - 12))
    × (and_not v (ones32_shl (32 - 12)) ≡ and_not (u32 77) (ones32_shl (32 - 12)))
addr_in_v4_example = addr_in_v4 ten_v4 [] 12 77 refl (omega arith) (omega arith)

addr_in_v6_example :
    (hi lo : ℕ) × (addr_in
        (record { addr = from16 documentation_v6; bits = some 70 })
        (77 ∷ 88 ∷ [])
      ≡ some (from16 (put_uint64 hi ++ put_uint64 lo), []))
    × (big_endian (put_uint64 hi) ≡ hi)
    × (big_endian (put_uint64 lo) ≡ lo)
    × SharesPrefix 70
        (big_endian (take 8 documentation_v6))
        (big_endian (drop 8 documentation_v6))
        hi
        lo
addr_in_v6_example =
    addr_in_v6 documentation_v6 [] 70 77 88 refl (omega arith) (omega arith) (omega arith)
      (omega arith)
