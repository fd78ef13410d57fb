-- ===== src/Ip/Eui.antt =====
-- ip.go: `IP`, `IPv6EUI64` and the modified EUI-64 of a MAC address.
pub mod Laws
use randomizer.Base.{
  ℕ, bit_xor, Bool, true, false, ◌&&◌, ◌||◌, Option, none, some, List, ◌∷◌, ◌++◌, ◌==◌,
  if◌then◌else◌, length, get_or, take, drop, set, Draw, pure, ◌>>=◌, ◌>>◌,
}
use randomizer.Ip.{
  IpKind, ipv6_global, ipv6_link_local, ipv6_site_local, ipv6_unique_local, ipv6_documentation,
  ipv6_public,
}
use randomizer.Network.{Written, fixed_bytes}
use randomizer.Ip.Fill.{fill_ip}

unfoldable pub ip : List ℕ → IpKind → Draw Written
unfolding fixed_bytes
ip array kind = do b ← fill_ip kind; pure (fixed_bytes array b)

-- The eight bytes of the interface identifier of a 6-byte or an 8-byte address.
unfoldable pub put_modified_eui64 : List ℕ → List ℕ
put_modified_eui64 mac =
    let b =
      if length mac == 8 then take 8 mac else take 3 mac ++ (0xff ∷ 0xfe ∷ take 3 (drop 3 mac)) in
    set b 0 (bit_xor (get_or b 0 0) 0x02)

-- The kinds that take an interface identifier.
unfoldable pub takes_eui64 : IpKind → Bool
takes_eui64 ipv6_link_local = true
takes_eui64 ipv6_global = true
takes_eui64 ipv6_public = true
takes_eui64 ipv6_unique_local = true
takes_eui64 ipv6_site_local = true
takes_eui64 ipv6_documentation = true
takes_eui64 _ = false

eui64_address : List ℕ → IpKind → List ℕ → Draw (Option Written)
unfolding fixed_bytes put_modified_eui64
eui64_address array kind mac = do
  b ← fill_ip kind
  pure (some (fixed_bytes array (take 8 b ++ put_modified_eui64 mac)))

-- `none` is the nil address.
unfoldable pub ipv6_eui64 : List ℕ → IpKind → List ℕ → Draw (Option Written)
unfolding takes_eui64 eui64_address
ipv6_eui64 array kind mac =
    if takes_eui64 kind && (length mac == 6 || length mac == 8)
    then eui64_address array kind mac
    else pure none
