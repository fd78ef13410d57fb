-- ===== src/Ip/Fill/Bytes.antt =====
-- `fillIP` for the kinds that a word or two decide.
use randomizer.Base.{
  ℕ, ◌+◌, ◌*◌, ◌^◌, ◌<◌, bit_and, bit_or, ◌≡◌, refl, some, List, ◌∷◌, ◌++◌, arith, length, set, All,
  u8, u32, IsByte, IsU64, ◌<<<◌, ◌>>>◌, put_uint32, put_uint64,
}
use randomizer.Ip.{
  ipv4_private, ipv4_link_local, ipv4_multicast, ipv6_any, ipv6_global, ipv6_link_local,
  ipv6_site_local, ipv6_unique_local, ipv4_loopback, ipv4_cgnat, ipv4_documentation,
  ipv6_documentation, ip_len,
}
use randomizer.Base.Bits.{bit_and_mask, bit_or_fields, bit_or_fields_swap}
use randomizer.Provider.{put_tail, fill_random_bytes}
use randomizer.Ip.Public.Blocks.{InBlock6}
use randomizer.Ip.Fill.Spec.{hi64, IsAddress}
use randomizer.Ip.Fill.{
  private_ipv4, link_local_in, multicast_ipv4, loopback_in, cgnat_ipv4, documentation_ipv4,
  global_head, site_local_head, documentation_head,
}

pub private_ipv4-IsAddress : (x : ℕ) → IsAddress ipv4_private (private_ipv4 x)
unfolding private_ipv4 ip_len
private_ipv4-IsAddress x = ground (arith, bit_and_mask 4 (u8 (x >>> 8)))

pub link_local_in-IsAddress :
    (x : ℕ) (b : List ℕ) → IsU64 x → link_local_in x ≡ some b → IsAddress ipv4_link_local b
unfolding link_local_in ip_len
link_local_in-IsAddress x b h e = ground arith

pub multicast_ipv4-IsAddress : (x : ℕ) → IsAddress ipv4_multicast (multicast_ipv4 x)
unfolding multicast_ipv4 ip_len
multicast_ipv4-IsAddress x =
    ground (arith, bit_and_mask 4 (u8 x), bit_or_fields 4 14 (bit_and (u8 x) 0x0f))

pub cgnat_ipv4-IsAddress : (x : ℕ) → IsAddress ipv4_cgnat (cgnat_ipv4 x)
unfolding cgnat_ipv4 ip_len
cgnat_ipv4-IsAddress x =
    ground (arith, bit_and_mask 6 (u8 x), bit_or_fields 6 1 (bit_and (u8 x) 0x3f))

pub documentation_ipv4-IsAddress :
    (v : ℕ) → v < 768 → IsAddress ipv4_documentation (documentation_ipv4 v)
unfolding documentation_ipv4 ip_len
documentation_ipv4-IsAddress v h = ground arith

pub loopback_in-IsAddress :
    (x : ℕ) (b : List ℕ) → IsU64 x → loopback_in x ≡ some b → IsAddress ipv4_loopback b
unfolding loopback_in ip_len put_uint32
loopback_in-IsAddress x b h e =
    ground (arith, bit_and_mask 24 (u32 x), bit_or_fields 24 127 (bit_and (u32 x) 0xffffff))

module _ (x y : ℕ) (ws : List ℕ) where
  pub two_words : fill_random_bytes 16 (x ∷ y ∷ ws) ≡ some (put_tail 8 x ++ put_tail 8 y, ws)
  unfolding fill_random_bytes
  two_words = refl

  pub global : IsAddress ipv6_global (global_head (put_tail 8 x ++ put_tail 8 y))
  unfolding put_tail ip_len
  global =
      let e = bit_and_mask 5 (u8 x) in
      let f = bit_or_fields_swap 5 1 (bit_and (u8 x) 0x1f) (omega (arith, e)) in
      record { len = refl; bytes = omega (arith, e, f); kind_of = omega (arith, e, f) }

  pub site_local : IsAddress ipv6_site_local (site_local_head (put_tail 8 x ++ put_tail 8 y))
  unfolding put_tail ip_len
  site_local =
      let c = u8 (x >>> 8) in
      let e = bit_and_mask 6 c in
      let f = bit_or_fields_swap 6 3 (bit_and c 0x3f) (omega (arith, e)) in
      record { len = refl; bytes = omega (arith, e, f); kind_of = omega (arith, e, f) }

  pub unique_local : IsAddress ipv6_unique_local (set (put_tail 8 x ++ put_tail 8 y) 0 0xfd)
  unfolding put_tail ip_len
  unique_local = record { len = refl; bytes = omega arith; kind_of = omega arith }

  pub documentation :
      IsAddress ipv6_documentation (documentation_head (put_tail 8 x ++ put_tail 8 y))
  unfolding put_tail ip_len
  documentation = record { len = refl; bytes = omega arith; kind_of = omega arith }

  pub any_ipv6 : IsAddress ipv6_any (put_tail 8 x ++ put_tail 8 y)
  unfolding put_tail ip_len
  any_ipv6 = record { len = refl; bytes = omega arith; kind_of = tt }

  -- A multicast address under the scope `s`.
  abbrev pub multicast_bytes : ℕ → List ℕ
  multicast_bytes s = set (set (put_tail 8 x ++ put_tail 8 y) 0 0xff) 1 (bit_or 0x10 s)

  pub multicast_block :
      (s : ℕ)
      → s < 16
      → (length (multicast_bytes s) ≡ 16)
        × All IsByte (multicast_bytes s)
        × InBlock6 ((0xff10 + s) * 2 ^ 48) 16 (hi64 (multicast_bytes s))
  unfolding put_tail
  multicast_block s h = let f = bit_or_fields 4 1 s h in (refl, omega (arith, f), omega (arith, f))

  pub link_local : IsU64 x → IsAddress ipv6_link_local (put_uint64 (0xfe80 <<< 48) ++ put_tail 8 x)
  unfolding put_uint64 put_tail ip_len
  link_local h = record { len = refl; bytes = omega arith; kind_of = omega arith }
