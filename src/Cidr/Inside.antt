-- ===== src/Cidr/Inside.antt =====
-- Addresses inside a network: `IPInCIDR`.
use randomizer.Base.{
  ℕ, ◌^◌, ◌<◌, bit_and, ◌≡◌, refl, ◌⊎◌, inl, inr, some, List, [], ◌∷◌, ◌++◌, arith, length, take,
  drop, length-append, length-take, All-take, length-drop, All-drop, big_endian-put_uint32,
  big_endian-put_uint64, All, All-append, u32, IsByte, IsU64, and_not, put_uint32, put_uint64,
  big_endian,
}
use randomizer.Base.Bits.Merge.{merge_lem, merge-lt}
use randomizer.Network.{fixed_bytes}
use randomizer.Cidr.{host_bits, to4, v4_in_v6_prefix, to16, ip_in_cidr}

-- `v` has the bits of `base` that the mask covers, and those of `x` elsewhere.
abbrev pub IsInside : ℕ → ℕ → ℕ → ℕ → Type 0
IsInside base mask x v = (bit_and v mask ≡ bit_and base mask) × (and_not v mask ≡ and_not x mask)

pub four_bytes : (b : List ℕ) → length b ≡ 4 → All IsByte b → big_endian b < 2 ^ 32
four_bytes (a ∷ b ∷ c ∷ d ∷ []) len h = omega arith
four_bytes _ len h = absurd (omega arith)

pub eight_bytes : (b : List ℕ) → length b ≡ 8 → All IsByte b → big_endian b < 2 ^ 64
eight_bytes (a ∷ b ∷ c ∷ d ∷ e ∷ f ∷ g ∷ h ∷ []) len bs = omega arith
eight_bytes _ len h = absurd (omega arith)

to4-len : (ip b : List ℕ) → to4 ip ≡ some b → All IsByte ip → (length b ≡ 4) × All IsByte b
unfolding to4
to4-len ip b e h = elim cases [
  | inl (same, len) ↦ rw same (len, h)
  | inr (same, len) ↦ rw same (omega (arith, length-drop 12 ip), All-drop IsByte 12 ip h)
]
  where
    cases : ((b ≡ ip) × (length ip ≡ 4)) ⊎ ((b ≡ drop 12 ip) × (length ip ≡ 16))
    cases = ground arith

to16-len : (ip b : List ℕ) → to16 ip ≡ some b → All IsByte ip → (length b ≡ 16) × All IsByte b
unfolding to16
to16-len ip b e h = elim cases [
  | inl (same, len) ↦ rw same (
    omega (arith, length-append v4_in_v6_prefix ip),
    All-append IsByte v4_in_v6_prefix ip (omega arith) h,
  )
  | inr (same, len) ↦ rw same (len, h)
]
  where
    cases : ((b ≡ v4_in_v6_prefix ++ ip) × (length ip ≡ 4)) ⊎ ((b ≡ ip) × (length ip ≡ 16))
    cases = ground arith

-- In an IPv4 network with an IPv4 mask: the address written is the network's where the mask is
-- set, and the drawn word's elsewhere.
pub ip_in_cidr_v4 :
    (array ip mask ip4 ws : List ℕ) (x : ℕ)
    → length mask ≡ 4
    → to4 ip ≡ some ip4
    → All IsByte ip
    → (v : ℕ) × (ip_in_cidr array (some (record { ip = ip; mask = mask })) (x ∷ ws)
        ≡ some (some (fixed_bytes array (put_uint32 v)), ws))
      × (big_endian (put_uint32 v) ≡ v)
      × IsInside (big_endian ip4) (big_endian mask) (u32 x) v
unfolding ip_in_cidr
ip_in_cidr_v4 array ip mask ip4 ws x len is4 bytes =
    let v = host_bits (big_endian ip4) (big_endian mask) (u32 x) in
    let (l, b) = to4-len ip ip4 is4 bytes in
    (
      v,
      rw (len, is4) refl,
      big_endian-put_uint32 v (
          merge-lt 32 (big_endian ip4) (u32 x) (big_endian mask) (four_bytes ip4 l b)
            (omega arith)),
      merge_lem (big_endian ip4) (u32 x) (big_endian mask),
    )

-- In an IPv6 network with an IPv6 mask: each half of the address written is the network's where the
-- mask is set, and elsewhere that of the 64-bit word drawn for it.
pub ip_in_cidr_v6 :
    (array ip mask ip6 ws : List ℕ) (x y : ℕ)
    → length mask ≡ 16
    → to16 ip ≡ some ip6
    → All IsByte ip
    → IsU64 x
    → IsU64 y
    → (hi lo : ℕ) × (ip_in_cidr array (some (record { ip = ip; mask = mask })) (x ∷ y ∷ ws)
        ≡ some (some (fixed_bytes array (put_uint64 hi ++ put_uint64 lo)), ws))
      × (big_endian (put_uint64 hi) ≡ hi)
      × (big_endian (put_uint64 lo) ≡ lo)
      × IsInside (big_endian (take 8 ip6)) (big_endian (take 8 mask)) x hi
      × IsInside (big_endian (drop 8 ip6)) (big_endian (drop 8 mask)) y lo
unfolding ip_in_cidr
ip_in_cidr_v6 array ip mask ip6 ws x y len is6 bytes hx hy =
    let first = take 8 ip6 in
    let last = drop 8 ip6 in
    let hi = host_bits (big_endian first) (big_endian (take 8 mask)) x in
    let lo = host_bits (big_endian last) (big_endian (drop 8 mask)) y in
    let (l, b) = to16-len ip ip6 is6 bytes in
    let first_lt = eight_bytes first (omega (arith, length-take 8 ip6)) (All-take IsByte 8 ip6 b) in
    let last_lt = eight_bytes last (omega (arith, length-drop 8 ip6)) (All-drop IsByte 8 ip6 b) in
    (
      hi,
      lo,
      rw (len, is6) refl,
      big_endian-put_uint64 hi
          (merge-lt 64 (big_endian first) x (big_endian (take 8 mask)) first_lt hx),
      big_endian-put_uint64 lo
          (merge-lt 64 (big_endian last) y (big_endian (drop 8 mask)) last_lt hy),
      merge_lem (big_endian first) x (big_endian (take 8 mask)),
      merge_lem (big_endian last) y (big_endian (drop 8 mask)),
    )
