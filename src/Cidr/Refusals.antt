-- ===== src/Cidr/Refusals.antt =====
-- The networks for which `IPInCIDR` returns nil.
use randomizer.Base.{
  ℕ, ◌≡◌, refl, ap, ◌≢◌, ◌⊎◌, inl, inr, Option, none, some, List, [], ◌∷◌, ◌++◌, arith, ◌==◌,
  ==_iff, Bool-cases, length, take, drop, replicate, u32, same_bytes, same_bytes-eq,
  same_bytes_self, put_uint32, put_uint64, big_endian,
}
use randomizer.Network.{Written, fixed_bytes_lem}
use randomizer.Cidr.{IpNet, to4, to16, in_cidr4, in_cidr16, host_bits, v4_in_v6_prefix, ip_in_cidr}

-- Four bytes, or the IPv4-mapped IPv6 address of four bytes.
abbrev pub IsV4 : List ℕ → Type 0
IsV4 ip = (length ip ≡ 4) ⊎ ((length ip ≡ 16) × (take 12 ip ≡ replicate 10 0 ++ (0xff ∷ 0xff ∷ [])))

-- An IPv4 mask on an IPv4 address, or an IPv6 mask on an address of either family.
abbrev pub IsValidNet : IpNet → Type 0
IsValidNet net =
    ((length net.mask ≡ 4) × IsV4 net.ip)
    ⊎ ((length net.mask ≡ 16) × ((length net.ip ≡ 4) ⊎ (length net.ip ≡ 16)))

-- What the code returns, if it does, is an address of `n` bytes.
abbrev pub IsAddressOf : ℕ → Option (Option Written × List ℕ) → Type 0
IsAddressOf n none = Unit
IsAddressOf n (some (none, rest)) = ⊥
IsAddressOf n (some (some w, rest)) = length w.bytes ≡ n

to4-cases :
    (ip : List ℕ)
    → ((¬ IsV4 ip) × (to4 ip ≡ none)) ⊎ (IsV4 ip × ((ip4 : List ℕ) × (to4 ip ≡ some ip4)))
unfolding to4
to4-cases ip = elim (Bool-cases (length ip == 4)) [
  | inl four ↦ inr (inl ((==_iff _ _).0 four), (ip, rw four refl))
  | inr other ↦
      let not_four : length ip ≢ 4 = ground arith in
      elim (Bool-cases (length ip == 16)) [
        | inr short ↦
            let not_sixteen : length ip ≢ 16 = ground arith in
            inl (
              λ v4. elim v4 [ inl l ↦ not_four l | inr m ↦ not_sixteen m.0 ],
              rw (other, short) refl,
            )
        | inl long ↦ elim (Bool-cases (same_bytes (take 12 ip) mapped)) [
          | inl same ↦ inr (
            inr ((==_iff _ _).0 long, same_bytes-eq (take 12 ip) mapped same),
            (drop 12 ip, rw (other, long, same) refl),
          )
          | inr differ ↦ inl (
            λ v4. elim v4 [
              | inl l ↦ not_four l
              | inr m ↦ cc (rw (m.1, same_bytes_self mapped) at differ)
            ],
            rw (other, long, differ) refl,
          )
        ]
      ]
]
  where
    mapped : List ℕ
    mapped = replicate 10 0 ++ (0xff ∷ 0xff ∷ [])

to16-cases :
    (ip : List ℕ)
    → ((length ip ≢ 4) × (length ip ≢ 16) × (to16 ip ≡ none))
      ⊎ (((length ip ≡ 4) ⊎ (length ip ≡ 16)) × ((ip6 : List ℕ) × (to16 ip ≡ some ip6)))
unfolding to16
to16-cases ip = elim (Bool-cases (length ip == 4)) [
  | inl four ↦ inr (inl ((==_iff _ _).0 four), (v4_in_v6_prefix ++ ip, rw four refl))
  | inr other ↦ elim (Bool-cases (length ip == 16)) [
    | inl long ↦ inr (inr ((==_iff _ _).0 long), (ip, rw (other, long) refl))
    | inr short ↦ inl (ground arith, ground arith, rw (other, short) refl)
  ]
]

in_cidr4-IsAddressOf :
    (array mask ip4 ws : List ℕ) → IsAddressOf 4 (in_cidr4 array mask (some ip4) ws)
unfolding in_cidr4 put_uint32
in_cidr4-IsAddressOf array mask ip4 [] = tt
in_cidr4-IsAddressOf array mask ip4 (x ∷ ws) =
    ap length
      (fixed_bytes_lem array (put_uint32 (host_bits (big_endian ip4) (big_endian mask) (u32 x)))).0

in_cidr16-IsAddressOf :
    (array mask ip6 ws : List ℕ) → IsAddressOf 16 (in_cidr16 array mask (some ip6) ws)
unfolding in_cidr16 put_uint64
in_cidr16-IsAddressOf array mask ip6 [] = tt
in_cidr16-IsAddressOf array mask ip6 (x ∷ []) = tt
in_cidr16-IsAddressOf array mask ip6 (x ∷ y ∷ ws) =
    let hi = host_bits (big_endian (take 8 ip6)) (big_endian (take 8 mask)) x in
    let lo = host_bits (big_endian (drop 8 ip6)) (big_endian (drop 8 mask)) y in
    ap length (fixed_bytes_lem array (put_uint64 hi ++ put_uint64 lo)).0

-- A nil network gives nil and draws no word. Every other network is one of two: one that is neither
-- an IPv4 mask on an IPv4 or IPv4-mapped address nor an IPv6 mask on an address of either family
-- gives nil and draws no word; for all others what the code returns is not nil but an address as long
-- as the mask.
pub ip_in_cidr_rejects :
    (array ws : List ℕ) (net : IpNet)
    → (ip_in_cidr array none ws ≡ some (none, ws))
      × (((¬ IsValidNet net) × (ip_in_cidr array (some net) ws ≡ some (none, ws)))
          ⊎ (IsValidNet net × IsAddressOf (length net.mask) (ip_in_cidr array (some net) ws)))
unfolding ip_in_cidr
ip_in_cidr_rejects array ws net = (
  refl,
  elim (Bool-cases (length net.mask == 4)) [
    | inl four ↦
        let mask4 : length net.mask ≡ 4 = (==_iff _ _).0 four in
        elim (to4-cases net.ip) [
          | inl (other, nil) ↦ inl (
            λ valid. elim valid [ inl h ↦ other h.1 | inr h ↦ omega (arith, h.0) ],
            rw (four, nil) (unfold in_cidr4 in refl),
          )
          | inr (v4, (ip4, found)) ↦ inr (
            inl (mask4, v4),
            rw (four, found, mask4) (in_cidr4-IsAddressOf array net.mask ip4 ws),
          )
        ]
    | inr other ↦ elim (Bool-cases (length net.mask == 16)) [
      | inl long ↦
          let mask16 : length net.mask ≡ 16 = (==_iff _ _).0 long in
          elim (to16-cases net.ip) [
            | inl (not4, not16, nil) ↦ inl (
              λ valid. elim valid [
                | inl h ↦ omega (arith, h.0)
                | inr h ↦ elim h.1 [ inl l ↦ not4 l | inr l ↦ not16 l ]
              ],
              rw (other, long, nil) (unfold in_cidr16 in refl),
            )
            | inr (fits, (ip6, found)) ↦ inr (
              inr (mask16, fits),
              rw (other, long, found, mask16) (in_cidr16-IsAddressOf array net.mask ip6 ws),
            )
          ]
      | inr short ↦ inl (
        λ valid. elim valid [ inl h ↦ ground (arith, h.0) | inr h ↦ ground (arith, h.0) ],
        rw (other, short) refl,
      )
    ]
  ],
)
