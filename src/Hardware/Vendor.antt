-- ===== src/Hardware/Vendor.antt =====
-- The kinds with a vendor prefix and those made from a MAC address.
use randomizer.Base.{
  ℕ, ◌+◌, ◌*◌, ◌/◌, ◌%◌, ◌^◌, ◌<◌, bit_xor, ◌≡◌, refl, some, List, [], ◌∷◌, ◌++◌, arith,
  holds_below, table_eq, length, get_or, take, drop, length-append, length-take, take_prefix,
  drop_prefix, All-take, All, Any, All-append, Any-map, u8, u16, u32, IsByte, IsU64, ◌>>>◌,
  big_endian, Returns, Returns-bind, draw_until, draw_until-Returns, IsFound,
}
use native.Mathlib.Nat.{mod-lt}
use randomizer.Base.Bits.{bit_and_mask}
use randomizer.Ip.Eui.{put_modified_eui64}
use randomizer.Hardware.{
  real_oui, inquiry_lap, lap_in, extension_in, mac_real_oui_bytes, eui64_real_oui_bytes, with_first,
}
use randomizer.Hardware.Ouis.{real_ouis, length-real_ouis, real_ouis-IsUniversal}
use randomizer.Hardware.Kinds.{octet, IsOutside, IsVendor}
use randomizer.Hardware.Bytes.{IsOctets}

-- A prefix of the table with more octets behind it.
real_oui-IsVendor :
    (x n : ℕ) (rest : List ℕ)
    → IsOctets n rest
    → IsOctets (3 + n) (take 3 (real_oui x) ++ rest)
      × IsVendor (take 3 (real_oui x) ++ rest)
      × (drop 3 (take 3 (real_oui x) ++ rest) ≡ rest)
unfolding real_oui
real_oui-IsVendor x n rest h =
    let i = (x >>> 32) % length real_ouis in
    let i_lt : i < length real_ouis = mod-lt (x >>> 32) (omega (arith, length-real_ouis)) in
    let u = real_ouis-IsUniversal i i_lt in
    let oui = get_or real_ouis i [] in
    let three : length (take 3 oui) ≡ 3 = omega (arith, length-take 3 oui, u.0) in
    (
      (
        omega (arith, length-append (take 3 oui) rest, three, h.0),
        All-append IsByte (take 3 oui) rest (All-take IsByte 3 oui u.1) h.1,
      ),
      (i, i_lt, take_prefix 3 (take 3 oui) rest three),
      drop_prefix 3 (take 3 oui) rest three,
    )

lap_in-lt : (x lap : ℕ) → lap_in x ≡ some lap → IsOutside lap × (lap < 2 ^ 24)
unfolding lap_in inquiry_lap
lap_in-lt x lap e = let m = bit_and_mask 24 (u32 x) in ground arith

lap_in-IsFound : (x : ℕ) → IsOutside (x % 2 ^ 24) → IsFound (lap_in x)
unfolding lap_in inquiry_lap
lap_in-IsFound x h = let m = bit_and_mask 24 (u32 x) in ground arith

pub mac_real_oui_bytes-Returns :
    (ws : List ℕ)
    → All IsU64 ws
    → Any (λ x. IsOutside (x % 2 ^ 24)) ws
    → Returns
        (λ b. IsOctets 6 b × (IsVendor b × IsOutside (big_endian (drop 3 b))))
        (mac_real_oui_bytes ws)
unfolding mac_real_oui_bytes
mac_real_oui_bytes-Returns [] hs live = absurd live
mac_real_oui_bytes-Returns (x ∷ ws) hs live =
    Returns-bind (λ lap. IsOutside lap × (lap < 2 ^ 24)) _ (draw_until lap_in x ws) _
      (draw_until-Returns _ lap_in x ws (λ y lap hy e. lap_in-lt y lap e) hs.0 hs.1
        (Any-map _ _ (x ∷ ws) lap_in-IsFound live))
      (λ lap rest h hr.
        let rest_octets = u8 (lap >>> 16) ∷ u8 (lap >>> 8) ∷ u8 lap ∷ [] in
        let v = real_oui-IsVendor x 3 rest_octets (refl, omega arith) in
        let back : big_endian rest_octets ≡ lap = omega arith in
        ((v.0, (v.1, rw (v.2, back) h.0)), hr))

extension_in-lt : (x y : ℕ) → extension_in x ≡ some y → u16 (y >>> 24) < 0xfffe
unfolding extension_in
extension_in-lt x y e = ground arith

extension_in-IsFound : (x : ℕ) → x / 2 ^ 24 % 2 ^ 16 < 0xfffe → IsFound (extension_in x)
unfolding extension_in
extension_in-IsFound x h = ground arith

pub eui64_real_oui_bytes-Returns :
    (ws : List ℕ)
    → All IsU64 ws
    → Any (λ x. x / 2 ^ 24 % 2 ^ 16 < 0xfffe) ws
    → Returns
        (λ b.
          IsOctets 8 b × (IsVendor b × (octet (drop 3 b) 0 * 256 + octet (drop 3 b) 1 < 0xfffe)))
        (eui64_real_oui_bytes ws)
unfolding eui64_real_oui_bytes
eui64_real_oui_bytes-Returns [] hs live = absurd live
eui64_real_oui_bytes-Returns (x ∷ ws) hs live =
    Returns-bind (λ y. u16 (y >>> 24) < 0xfffe) _ (draw_until extension_in x ws) _
      (draw_until-Returns _ extension_in x ws (λ z y hz e. extension_in-lt z y e) hs.0 hs.1
        (Any-map _ _ (x ∷ ws) extension_in-IsFound live))
      (λ y rest h hr.
        let rest_octets =
          u8 (y >>> 32) ∷ u8 (y >>> 24) ∷ u8 (y >>> 16) ∷ u8 (y >>> 8) ∷ u8 y ∷ [] in
        let v = real_oui-IsVendor x 5 rest_octets (refl, omega arith) in
        let small : u8 (y >>> 32) * 256 + u8 (y >>> 24) < 0xfffe = omega arith in
        ((v.0, (v.1, rw (v.2) small)), hr))

flip_twice : (b : ℕ) → b < 256 → bit_xor (bit_xor b 0x02) 0x02 ≡ b
unfolding holds_below
flip_twice = table_eq (λ b. bit_xor (bit_xor b 0x02) 0x02) (λ b. b) 256 refl

-- The EUI-64 of a MAC address keeps its U/L bit, which the modified form inverts.
pub eui64_from_mac-IsOctets :
    (mac : List ℕ)
    → length mac ≡ 6
    → All IsByte mac
    → IsOctets 8 (with_first (λ b. bit_xor b 0x02) (put_modified_eui64 mac))
      × (with_first (λ b. bit_xor b 0x02) (put_modified_eui64 mac)
          ≡ take 3 mac ++ (0xff ∷ 0xfe ∷ drop 3 mac))
unfolding put_modified_eui64
eui64_from_mac-IsOctets (a ∷ b ∷ c ∷ d ∷ e ∷ f ∷ []) len h =
    rw (flip_twice a h.0) ((refl, omega arith), refl)
eui64_from_mac-IsOctets _ len h = absurd (omega arith)
