-- ===== src/Ip/Fill.antt =====
-- ip.go: `fillIP`, a function for each family of kinds.
pub mod Spec
mod Bytes
mod PublicKinds
pub mod InKind
use randomizer.Base.{
  ℕ, ◌+◌, ◌*◌, bit_and, bit_or, ◌||◌, Option, none, some, List, [], ◌∷◌, ◌++◌, ◌==◌, if◌then◌else◌,
  get_or, set, u8, u32, ◌<<<◌, ◌>>>◌, and_not, put_uint32, put_uint64, Draw, pure, ◌>>=◌, ◌>>◌,
  sum64, draw_until,
}
use randomizer.Number.{bounded_from}
use randomizer.Provider.{put_tail, fill_random_bytes}
use randomizer.Ip.Public.{is_public_ipv4, is_public_ipv6}
use randomizer.Ip.{
  IpKind, ipv4_any, ipv4_private, ipv4_link_local, ipv4_multicast, ipv4_public, ipv6_any,
  ipv6_global, ipv6_link_local, ipv6_site_local, ipv6_unique_local, ipv6_interface_local_multicast,
  ipv6_link_local_multicast, ipv6_admin_local_multicast, ipv6_site_local_multicast,
  ipv6_org_local_multicast, ipv6_global_multicast, ipv4_loopback, ipv4_cgnat, ipv4_documentation,
  ipv6_documentation, ipv6_public, ipv6_realm_local_multicast, unknown, multicast_scope,
}

unfoldable pub private_ipv4 : ℕ → List ℕ
private_ipv4 x =
    let block = (u32 (x >>> 32) * 3) >>> 32 in
    let tail = u8 (x >>> 16) ∷ u8 (x >>> 24) ∷ [] in
    if block == 0
    then 10 ∷ u8 (x >>> 8) ∷ tail
    else if block == 1
    then 172 ∷ u8 (16 + bit_and (u8 (x >>> 8)) 0x0f) ∷ tail
    else 192 ∷ 168 ∷ tail

unfoldable pub link_local_in : ℕ → Option (List ℕ)
link_local_in x =
    if u8 x == 0 || u8 x == 255 then none else some (169 ∷ 254 ∷ u8 x ∷ u8 (x >>> 8) ∷ [])

unfoldable pub multicast_ipv4 : ℕ → List ℕ
multicast_ipv4 x =
    bit_or 0xe0 (bit_and (u8 x) 0x0f) ∷ u8 (x >>> 8) ∷ u8 (x >>> 16) ∷ u8 (x >>> 24) ∷ []

unfoldable pub public_in : ℕ → Option ℕ
public_in a = if is_public_ipv4 a then some a else none

-- The low half of the first word, its high half, then the low halves of the words behind it.
unfoldable pub public_choice : ℕ → Draw ℕ
public_choice x =
    if is_public_ipv4 (u32 x)
    then pure (u32 x)
    else if is_public_ipv4 (u32 (x >>> 32))
    then pure (u32 (x >>> 32))
    else do w ← sum64; draw_until (λ y. public_in (u32 y)) w

unfoldable pub public_ipv4 : Draw (List ℕ)
unfolding public_choice public_in
public_ipv4 = do x ← sum64; a ← public_choice x; pure (put_uint32 a)

unfoldable pub loopback_in : ℕ → Option (List ℕ)
loopback_in w =
    let x = bit_and (u32 w) 0xffffff in
    if x == 0 || x == 0xffffff then none else some (put_uint32 (bit_or (127 <<< 24) x))

unfoldable pub cgnat_ipv4 : ℕ → List ℕ
cgnat_ipv4 x = 100 ∷ bit_or 64 (bit_and (u8 x) 0x3f) ∷ u8 (x >>> 8) ∷ u8 (x >>> 16) ∷ []

unfoldable pub documentation_ipv4 : ℕ → List ℕ
documentation_ipv4 v =
    let block = v >>> 8 in
    if block == 0
    then 192 ∷ 0 ∷ 2 ∷ u8 v ∷ []
    else if block == 1
    then 198 ∷ 51 ∷ 100 ∷ u8 v ∷ []
    else 203 ∷ 0 ∷ 113 ∷ u8 v ∷ []

unfoldable pub public_hi_in : ℕ → Option ℕ
public_hi_in x =
    let hi = bit_or (and_not x (7 <<< 61)) (1 <<< 61) in if is_public_ipv6 hi then some hi else none

unfoldable pub public_lo_in : ℕ → Option ℕ
public_lo_in x =
    if x == 0 || x >>> 7 == 0x1fbffffffffffff || x >>> 7 == 0x1ffffffffffffff then none else some x

unfoldable pub public_ipv6 : Draw (List ℕ)
unfolding public_hi_in public_lo_in
public_ipv6 = do
  x ← sum64
  hi ← draw_until public_hi_in x
  y ← sum64
  lo ← draw_until public_lo_in y
  pure (put_uint64 hi ++ put_uint64 lo)

-- Random bytes with some of the first ones replaced.
abbrev global_head : List ℕ → List ℕ
global_head b = set b 0 (bit_or (bit_and (get_or b 0 0) 0x1f) 0x20)

abbrev site_local_head : List ℕ → List ℕ
site_local_head b = let c = set b 0 0xfe in set c 1 (bit_or (bit_and (get_or c 1 0) 0x3f) 0xc0)

abbrev documentation_head : List ℕ → List ℕ
documentation_head b = set (set (set (set b 0 0x20) 1 0x01) 2 0x0d) 3 0xb8

multicast_ipv6 : IpKind → Draw (List ℕ)
unfolding multicast_scope fill_random_bytes
multicast_ipv6 kind = do
  b ← fill_random_bytes 16
  pure (set (set b 0 0xff) 1 (bit_or 0x10 (multicast_scope kind)))

unfoldable pub fill_ip : IpKind → Draw (List ℕ)
unfolding private_ipv4 link_local_in multicast_ipv4 public_ipv4 loopback_in cgnat_ipv4
    documentation_ipv4 public_ipv6 multicast_ipv6 fill_random_bytes
fill_ip ipv4_private = do x ← sum64; pure (private_ipv4 x)
fill_ip ipv4_link_local = do x ← sum64; draw_until link_local_in x
fill_ip ipv4_multicast = do x ← sum64; pure (multicast_ipv4 (u32 x))
fill_ip ipv4_public = public_ipv4
fill_ip ipv4_loopback = do x ← sum64; draw_until loopback_in x
fill_ip ipv4_cgnat = do x ← sum64; pure (cgnat_ipv4 (u32 x))
fill_ip ipv4_documentation = do x ← sum64; v ← bounded_from x (3 * 256); pure (documentation_ipv4 v)
fill_ip ipv6_any = fill_random_bytes 16
fill_ip ipv6_global = do b ← fill_random_bytes 16; pure (global_head b)
fill_ip ipv6_link_local = do x ← sum64; pure (put_uint64 (0xfe80 <<< 48) ++ put_tail 8 x)
fill_ip ipv6_site_local = do b ← fill_random_bytes 16; pure (site_local_head b)
fill_ip ipv6_unique_local = do b ← fill_random_bytes 16; pure (set b 0 0xfd)
fill_ip ipv6_documentation = do b ← fill_random_bytes 16; pure (documentation_head b)
fill_ip ipv6_public = public_ipv6
fill_ip ipv6_interface_local_multicast = multicast_ipv6 ipv6_interface_local_multicast
fill_ip ipv6_link_local_multicast = multicast_ipv6 ipv6_link_local_multicast
fill_ip ipv6_realm_local_multicast = multicast_ipv6 ipv6_realm_local_multicast
fill_ip ipv6_admin_local_multicast = multicast_ipv6 ipv6_admin_local_multicast
fill_ip ipv6_site_local_multicast = multicast_ipv6 ipv6_site_local_multicast
fill_ip ipv6_org_local_multicast = multicast_ipv6 ipv6_org_local_multicast
fill_ip ipv6_global_multicast = multicast_ipv6 ipv6_global_multicast
fill_ip ipv4_any = do x ← sum64; pure (put_uint32 (u32 x))
fill_ip unknown = do x ← sum64; pure (put_uint32 (u32 x))
