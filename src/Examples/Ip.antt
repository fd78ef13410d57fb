-- ===== src/Examples/Ip.antt =====
-- ip.go and network.go on concrete words and addresses.
use randomizer.Base.{◌≡◌, refl, ◌↔◌, inl, inr, false, none, some, [], ◌∷◌, arith, Returns}
use randomizer.Ip.{ipv4_private, ipv6_any, ipv6_link_local, ipv4_loopback}
use randomizer.Network.{fixed_bytes}
use randomizer.Ip.Public.{is_public_ipv4, is_public_ipv6}
use randomizer.Ip.Public.Blocks.{
  quad, IsSpecialIpv4, IsSpecialIpv6, is_public_ipv4-IsSpecialIpv4, is_public_ipv6-IsSpecialIpv6,
}
use randomizer.Ip.Fill.{fill_ip}
use randomizer.Ip.Fill.Spec.{IsAddress}
use randomizer.Ip.Fill.InKind.{fill_ip-Returns}
use randomizer.Ip.Eui.{put_modified_eui64, ipv6_eui64}
use randomizer.Ip.Eui.Laws.{mac_of, mac_of-put_modified_eui64, IsEui64Address, ipv6_eui64-Returns}

private_block :
    fill_ip ipv4_private (0xffff_ffff_0302_0000 ∷ []) ≡ some (192 ∷ 168 ∷ 2 ∷ 3 ∷ [], [])
unfolding fill_ip
private_block = refl

one_word_is_not_enough : fill_ip ipv6_any (1 ∷ []) ≡ none
unfolding fill_ip
one_word_is_not_enough = refl

-- The front of the array takes the bytes where they fit.
fills_the_front :
    fixed_bytes (9 ∷ 8 ∷ 7 ∷ []) (1 ∷ 2 ∷ [])
    ≡ record { bytes = 1 ∷ 2 ∷ []; array = 1 ∷ 2 ∷ 7 ∷ [] }
unfolding fixed_bytes
fills_the_front = refl

is_public_ipv4-IsSpecialIpv4_example :
    (is_public_ipv4 (quad 192 88 99 7) ≡ false) ↔ IsSpecialIpv4 (quad 192 88 99 7)
is_public_ipv4-IsSpecialIpv4_example = is_public_ipv4-IsSpecialIpv4 (quad 192 88 99 7) (omega arith)

is_public_ipv6-IsSpecialIpv6_example :
    (is_public_ipv6 0x2001_0db8_0000_0001 ≡ false) ↔ IsSpecialIpv6 0x2001_0db8_0000_0001
is_public_ipv6-IsSpecialIpv6_example = is_public_ipv6-IsSpecialIpv6 0x2001_0db8_0000_0001

fill_ip-Returns_example : Returns (IsAddress ipv4_loopback) (fill_ip ipv4_loopback (0 ∷ 5 ∷ []))
fill_ip-Returns_example =
    fill_ip-Returns ipv4_loopback (0 ∷ 5 ∷ []) (omega arith) (inr (inl (omega arith)))

mac_of-put_modified_eui64_example :
    mac_of (put_modified_eui64 (2 ∷ 3 ∷ 4 ∷ 5 ∷ 6 ∷ 7 ∷ [])) ≡ 2 ∷ 3 ∷ 4 ∷ 5 ∷ 6 ∷ 7 ∷ []
mac_of-put_modified_eui64_example =
    mac_of-put_modified_eui64 (2 ∷ 3 ∷ 4 ∷ 5 ∷ 6 ∷ 7 ∷ []) (omega arith) refl

ipv6_eui64-Returns_example :
    Returns
      (IsEui64Address [] ipv6_link_local (2 ∷ 3 ∷ 4 ∷ 5 ∷ 6 ∷ 7 ∷ []))
      (ipv6_eui64 [] ipv6_link_local (2 ∷ 3 ∷ 4 ∷ 5 ∷ 6 ∷ 7 ∷ []) (77 ∷ []))
ipv6_eui64-Returns_example =
    ipv6_eui64-Returns [] ipv6_link_local (2 ∷ 3 ∷ 4 ∷ 5 ∷ 6 ∷ 7 ∷ []) (77 ∷ []) tt (inl refl)
      (omega arith) (omega arith) (omega arith)
