-- ===== src/Ip/Public.antt =====
-- ip.go: which addresses are public.
pub mod Blocks
use randomizer.Base.{
  ℕ, zero, suc, ◌+◌, bit_and, Bool, true, false, ◌&&◌, ◌||◌, List, [], ◌∷◌, ◌==◌, if◌then◌else◌,
  get_or, replicate, set, u8, ◌<<<◌, ◌>>>◌,
}

-- The table `ipv4FirstOctet`: 0 public, 1 special-purpose, 2 decided by the octets behind it.
set_each : List ℕ → ℕ → List ℕ → List ℕ
set_each [] v table = table
set_each (a ∷ rest) v table = set_each rest v (set table a v)

octets_from : ℕ → ℕ → List ℕ
octets_from a zero = []
octets_from a (suc n) = a ∷ octets_from (a + 1) n

unfoldable pub ipv4_first_octet : List ℕ
unfolding set_each octets_from
ipv4_first_octet =
    set_each (100 ∷ 169 ∷ 172 ∷ 192 ∷ 198 ∷ 203 ∷ []) 2
      (set_each (octets_from 224 32) 1 (set_each (0 ∷ 10 ∷ 127 ∷ []) 1 (replicate 256 0)))

unfoldable pub is_public_ipv4_slow : ℕ → Bool
is_public_ipv4_slow x =
    let a = u8 (x >>> 24) in
    let b = u8 (x >>> 16) in
    let c = u8 (x >>> 8) in
    if a == 100 && bit_and b 0xc0 == 64
    then false
    else if a == 169 && b == 254
    then false
    else if a == 172 && bit_and b 0xf0 == 16
    then false
    else if a == 192 && b == 0 && c == 0
    then false
    else if a == 192 && b == 0 && c == 2
    then false
    else if a == 192 && b == 88 && c == 99
    then false
    else if a == 192 && b == 168
    then false
    else if a == 198 && bit_and b 0xfe == 18
    then false
    else if a == 198 && b == 51 && c == 100
    then false
    else if a == 203 && b == 0 && c == 113
    then false
    else true

unfoldable pub is_public_ipv4 : ℕ → Bool
unfolding ipv4_first_octet is_public_ipv4_slow
is_public_ipv4 x =
    let class = get_or ipv4_first_octet (x >>> 24) 0 in
    if class == 0 then true else if class == 1 then false else is_public_ipv4_slow x

-- On the high half of an address in 2000::/3.
unfoldable pub is_public_ipv6 : ℕ → Bool
is_public_ipv6 hi =
    if hi >>> 41 == 0x2001 <<< 7
    then false
    else if hi >>> 32 == 0x20010db8
    then false
    else if hi >>> 48 == 0x2002 || hi >>> 48 == 0x5f00
    then false
    else if hi >>> 44 == 0x3fff0
    then false
    else if hi >>> 16 == 0x2620004f8000
    then false
    else true
