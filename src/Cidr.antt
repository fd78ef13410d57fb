-- ===== src/Cidr.antt =====
-- cidr.go: random network prefixes and addresses inside a prefix.
pub mod Mask
pub mod Prefix
pub mod Inside
pub mod Refusals
use randomizer.Base.{
  ℕ, zero, suc, ◌+◌, ◌-◌, min, bit_and, ◌&&◌, Option, none, some, List, [], ◌∷◌, ◌++◌, ◌==◌,
  if◌then◌else◌, length, get_or, take, drop, replicate, set, u8, u32, ◌<<<◌, ◌>>>◌, same_bytes,
  put_uint32, put_uint64, big_endian, Draw, pure, ◌>>=◌, ◌>>◌, sum64,
}
use randomizer.Base.Bits.Merge.{merge}
use randomizer.Provider.{fill_random_bytes}
use randomizer.Network.{Written, fixed_bytes}

pub data CidrKind : Type 0 where
  ipv4_cidr ipv6_cidr ipv6_ula_prefix unknown : CidrKind

-- The prefix length and the address length in bytes.
unfoldable pub prefix_len : CidrKind → ℕ → ℕ × ℕ
prefix_len ipv6_cidr bits = (min bits 128, 16)
prefix_len ipv6_ula_prefix bits = (48, 16)
prefix_len ipv4_cidr bits = (min bits 32, 4)
prefix_len unknown bits = (min bits 32, 4)

-- `clear(ip[from:])`
unfoldable pub clear_from : ℕ → List ℕ → List ℕ
clear_from from ip = take from ip ++ replicate (length ip - from) 0

-- `0xff << (8 - rem)` on a byte.
abbrev pub byte_mask : ℕ → ℕ
byte_mask rem = u8 (0xff <<< (8 - rem))

unfoldable pub mask_host_bits : List ℕ → ℕ → List ℕ
unfolding clear_from
mask_host_bits ip bits =
    let full = bits >>> 3 in
    let rem = bit_and bits 7 in
    if rem == 0
    then clear_from full ip
    else clear_from (full + 1) (set ip full (bit_and (get_or ip full 0) (byte_mask rem)))

-- The loop that sets `rounds` bytes from `i` on.
unfoldable pub set_ones : ℕ → ℕ → List ℕ → List ℕ
set_ones zero i mask = mask
set_ones (suc rounds) i mask = set_ones rounds (i + 1) (set mask i 0xff)

unfoldable pub fill_cidr_mask : List ℕ → ℕ → List ℕ
unfolding set_ones
fill_cidr_mask mask bits =
    let full = bits >>> 3 in
    let rem = bit_and bits 7 in
    let ones = set_ones full 0 mask in if rem == 0 then ones else set ones full (byte_mask rem)

-- A unique-local /48 from one word.
unfoldable pub ula_prefix : ℕ → ℕ → List ℕ
ula_prefix n x =
    set
      (set
        (set (set (set (set (replicate n 0) 0 0xfd) 1 (u8 x)) 2 (u8 (x >>> 8))) 3 (u8 (x >>> 16))) 4
        (u8 (x >>> 24)))
      5 (u8 (x >>> 32))

unfoldable pub fill_prefix : ℕ → CidrKind → ℕ → Draw (List ℕ)
unfolding ula_prefix mask_host_bits fill_random_bytes
fill_prefix n ipv6_ula_prefix bits = do x ← sum64; pure (ula_prefix n x)
fill_prefix n ipv4_cidr bits = do ip ← fill_random_bytes n; pure (mask_host_bits ip bits)
fill_prefix n ipv6_cidr bits = do ip ← fill_random_bytes n; pure (mask_host_bits ip bits)
fill_prefix n unknown bits = do ip ← fill_random_bytes n; pure (mask_host_bits ip bits)

-- `net.IPNet`
pub record IpNet : Type 0 where
  pub ip : List ℕ
  pub mask : List ℕ

unfoldable pub cidr : CidrKind → ℕ → Draw IpNet
unfolding prefix_len fill_prefix fill_cidr_mask
cidr kind bits =
    let (len, n) = prefix_len kind bits in
    do
      ip ← fill_prefix n kind len
      pure (record { ip = ip; mask = fill_cidr_mask (replicate n 0) len })

-- `hostBits32` and `hostBits64`: `base & mask | x &^ mask`.
abbrev pub host_bits : ℕ → ℕ → ℕ → ℕ
host_bits base mask x = merge base x mask

-- `net.IP.To4` and `To16`; `none` is nil.
abbrev v4_in_v6_prefix : List ℕ
v4_in_v6_prefix = 0 ∷ 0 ∷ 0 ∷ 0 ∷ 0 ∷ 0 ∷ 0 ∷ 0 ∷ 0 ∷ 0 ∷ 0xff ∷ 0xff ∷ []

unfoldable pub to4 : List ℕ → Option (List ℕ)
to4 ip =
    if length ip == 4
    then some ip
    else if length ip == 16 && same_bytes (take 12 ip) v4_in_v6_prefix
    then some (drop 12 ip)
    else none

unfoldable pub to16 : List ℕ → Option (List ℕ)
to16 ip =
    if length ip == 4
    then some (v4_in_v6_prefix ++ ip)
    else if length ip == 16
    then some ip
    else none

in_cidr4 : List ℕ → List ℕ → Option (List ℕ) → Draw (Option Written)
unfolding fixed_bytes put_uint32
in_cidr4 array mask none = pure none
in_cidr4 array mask (some ip4) = do
  x ← sum64
  pure
      (some (fixed_bytes array (put_uint32 (host_bits (big_endian ip4) (big_endian mask) (u32 x)))))

in_cidr16 : List ℕ → List ℕ → Option (List ℕ) → Draw (Option Written)
unfolding fixed_bytes put_uint64
in_cidr16 array mask none = pure none
in_cidr16 array mask (some ip6) = do
  x ← sum64
  y ← sum64
  pure (
      some (
        fixed_bytes array (
          put_uint64 (host_bits (big_endian (take 8 ip6)) (big_endian (take 8 mask)) x)
          ++ put_uint64 (host_bits (big_endian (drop 8 ip6)) (big_endian (drop 8 mask)) y))))

-- `none` for the network is the nil pointer, `none` for the result the nil address.
unfoldable pub ip_in_cidr : List ℕ → Option IpNet → Draw (Option Written)
unfolding to4 to16 in_cidr4 in_cidr16
ip_in_cidr array none = pure none
ip_in_cidr array (some net) =
    if length net.mask == 4
    then in_cidr4 array net.mask (to4 net.ip)
    else if length net.mask == 16
    then in_cidr16 array net.mask (to16 net.ip)
    else pure none
