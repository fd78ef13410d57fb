-- ===== src/Hardware/Kinds.antt =====
-- What an address of each kind is, and the words on which a kind ends.
use randomizer.Base.{
  ℕ, ◌+◌, ◌-◌, ◌*◌, ◌/◌, ◌%◌, ◌^◌, ◌≤◌, ◌<◌, ◌≡◌, ◌≢◌, ◌⊎◌, Bool, true, false, Option, none, some,
  List, [], ◌∷◌, ◌++◌, length, get_or, take, drop, replicate, All, Any, IsByte, big_endian,
}
use randomizer.Ip.Eui.Laws.{identifier_of}
use randomizer.Cidr.Mask.{bit_at}
use randomizer.Hardware.{
  HardwareKind, mac, mac_oui, mac_real_oui, eui64, eui64_from_mac, mac_prefix, mac_aai, mac_eli,
  mac_sai, eui64_real_oui, modified_eui64_from_mac, bluetooth_static, bluetooth_nrpa, bluetooth_rpa,
  unknown, HardwareOptions,
}
use randomizer.Hardware.Ouis.{real_ouis}

abbrev pub octet : List ℕ → ℕ → ℕ
octet b i = get_or b i 0

abbrev pub IsVendor : List ℕ → Type 0
IsVendor b = (i : ℕ) × (i < length real_ouis) × (take 3 b ≡ take 3 (get_or real_ouis i []))

abbrev pub flag : Bool → ℕ
flag true = 1
flag false = 0

-- The two low bits of the first octet: U/L, then I/G.
abbrev pub HasFlags : Bool → Bool → List ℕ → Type 0
HasFlags local multicast b = octet b 0 % 4 ≡ 2 * flag local + flag multicast

-- Outside the Bluetooth inquiry range 0x9e8b00-0x9e8b3f.
abbrev pub IsOutside : ℕ → Type 0
IsOutside lap = (lap < 0x9e8b00) ⊎ (0x9e8b3f < lap)

-- Between all zero and all one, on `k` bits.
abbrev pub IsMixed : ℕ → ℕ → Type 0
IsMixed k r = (r ≢ 0) × (r ≢ 2 ^ k - 1)

-- No key, or one of 16 bytes.
abbrev pub IsKey : Option (List ℕ) → Type 0
IsKey none = Unit {0}
IsKey (some irk) = length irk ≡ 16

-- 46 random bits that are neither all zero nor all one, below the two bits `top`.
abbrev pub IsRandom46 : ℕ → List ℕ → Type 0
IsRandom46 top b =
    (big_endian b / 2 ^ 46 ≡ top)
    × (big_endian b % 2 ^ 46 ≢ 0)
    × (big_endian b % 2 ^ 46 ≢ 2 ^ 46 - 1)

-- A `prand` with the top bits 01, whose 22 random bits are neither all zero nor all one.
abbrev pub IsPrand : List ℕ → Type 0
IsPrand b =
    (big_endian b / 2 ^ 46 ≡ 1)
    × (big_endian b / 2 ^ 24 % 2 ^ 22 ≢ 0)
    × (big_endian b / 2 ^ 24 % 2 ^ 22 ≢ 2 ^ 22 - 1)

-- The hash part of a resolvable private address with a key: the lowest 24 bits of the cipher's
-- block over the `prand` behind thirteen zero bytes.
abbrev pub HashFrom : (List ℕ → List ℕ → List ℕ) → Option (List ℕ) → List ℕ → Type 0
HashFrom aes none b = Unit {0}
HashFrom aes (some irk) b = drop 3 b ≡ drop 13 (aes irk (replicate 13 0 ++ take 3 b))

abbrev pub InKind : (List ℕ → List ℕ → List ℕ) → HardwareKind → HardwareOptions → List ℕ → Type 0
InKind aes mac o b = HasFlags o.local o.multicast b
InKind aes unknown o b = HasFlags o.local o.multicast b
InKind aes mac_oui o b = take 3 b ≡ o.oui
InKind aes mac_real_oui o b = IsVendor b × IsOutside (big_endian (drop 3 b))
InKind aes mac_prefix o b = (i : ℕ) → i < o.prefix_bits → bit_at b i ≡ bit_at o.prefix i
InKind aes mac_aai o b = octet b 0 % 16 ≡ 2
InKind aes mac_sai o b = octet b 0 % 16 ≡ 14
InKind aes mac_eli o b = (take 3 b ≡ o.cid) × (octet b 0 % 16 ≡ 10)
InKind aes eui64 o b = octet b 0 % 4 ≡ 2
InKind aes eui64_real_oui o b =
    IsVendor b × (octet (drop 3 b) 0 * 256 + octet (drop 3 b) 1 < 0xfffe)
InKind aes eui64_from_mac o b = b ≡ take 3 o.source ++ (0xff ∷ 0xfe ∷ drop 3 o.source)
InKind aes modified_eui64_from_mac o b = b ≡ identifier_of o.source
InKind aes bluetooth_static o b = IsRandom46 3 b
InKind aes bluetooth_nrpa o b = IsRandom46 0 b
InKind aes bluetooth_rpa o b = IsPrand b × HashFrom aes o.irk b

-- The options that a kind accepts.
abbrev pub Valid : HardwareKind → HardwareOptions → Type 0
Valid mac_oui o = (length o.oui ≡ 3) × All IsByte o.oui
Valid mac_eli o = (length o.cid ≡ 3) × All IsByte o.cid × (octet o.cid 0 % 16 ≡ 10)
Valid mac_prefix o =
    (1 ≤ o.prefix_bits)
    × (o.prefix_bits ≤ 48)
    × (o.prefix_bits ≤ length o.prefix * 8)
    × All IsByte o.prefix
Valid eui64_from_mac o = (length o.source ≡ 6) × All IsByte o.source
Valid modified_eui64_from_mac o = (length o.source ≡ 6) × All IsByte o.source
Valid bluetooth_rpa o = IsKey o.irk
Valid _ o = Unit {0}

-- Words on which a kind ends.
abbrev pub Supplies : HardwareKind → List ℕ → Type 0
Supplies mac_real_oui ws = Any (λ x. IsOutside (x % 2 ^ 24)) ws
Supplies eui64_real_oui ws = Any (λ x. x / 2 ^ 24 % 2 ^ 16 < 0xfffe) ws
Supplies bluetooth_static ws = Any (λ x. IsMixed 46 (x % 2 ^ 46)) ws
Supplies bluetooth_nrpa ws = Any (λ x. IsMixed 46 (x % 2 ^ 46)) ws
Supplies bluetooth_rpa ws = Any (λ x. IsMixed 22 (x % 2 ^ 22)) ws
Supplies eui64_from_mac ws = Unit {0}
Supplies modified_eui64_from_mac ws = Unit {0}
Supplies _ ws = 1 ≤ length ws

-- The octets of an address, 8 for an EUI-64 and 6 for every other.
abbrev pub address_len : HardwareKind → ℕ
address_len eui64 = 8
address_len eui64_from_mac = 8
address_len modified_eui64_from_mac = 8
address_len eui64_real_oui = 8
address_len _ = 6
