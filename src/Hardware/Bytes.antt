-- ===== src/Hardware/Bytes.antt =====
-- The bytes of the kinds that take one word, and of those with 46 random bits.
use randomizer.Base.{
  ℕ, ◌+◌, ◌-◌, ◌*◌, ◌%◌, ◌^◌, ◌<◌, bit_or, ◌≡◌, refl, Bool, true, false, ◌&&◌, some, List, [], ◌∷◌,
  arith, ltb, ◌==◌, holds_below, holds_below_each, length, take, All, Any, Any-map, u8, IsByte,
  IsU64, ◌<<<◌, ◌>>>◌, put_uint64, big_endian, Returns, Returns-bind, draw_until,
  draw_until-Returns, IsFound,
}
use randomizer.Base.Bits.{bit_and_mask, bit_or_fields_swap}
use randomizer.Hardware.{
  put_uint48, with_first, mac_first, aai_first, sai_first, eui64_first, behind_oui, random46_in,
  random46_bytes,
}
use randomizer.Hardware.Kinds.{octet, flag, HasFlags, IsMixed, IsRandom46}

abbrev pub IsOctets : ℕ → List ℕ → Type 0
IsOctets n b = (length b ≡ n) × All IsByte b

-- The masks of the first octet.
mac_table :
    (local multicast : Bool)
    → holds_below
        (λ b.
          ltb (mac_first local multicast b) 256
          && (mac_first local multicast b % 4 == 2 * flag local + flag multicast))
        256
      ≡ true
unfolding holds_below
mac_table true true = refl
mac_table true false = refl
mac_table false true = refl
mac_table false false = refl

slap_table :
    (holds_below (λ b. ltb (aai_first b) 256 && (aai_first b % 16 == 2)) 256 ≡ true)
    × (holds_below (λ b. ltb (sai_first b) 256 && (sai_first b % 16 == 14)) 256 ≡ true)
    × (holds_below (λ b. ltb (eui64_first b) 256 && (eui64_first b % 4 == 2)) 256 ≡ true)
unfolding holds_below
slap_table = (refl, refl, refl)

both : (b n m r : ℕ) → (ltb b n && (b % m == r)) ≡ true → (b < n) × (b % m ≡ r)
both b n m r e = ground arith

pub mac_first-HasFlags :
    (local multicast : Bool) (x : ℕ)
    → IsOctets 6 (with_first (mac_first local multicast) (put_uint48 x))
      × HasFlags local multicast (with_first (mac_first local multicast) (put_uint48 x))
mac_first-HasFlags local multicast x =
    let h =
      both (mac_first local multicast (u8 (x >>> 40))) 256 4 (2 * flag local + flag multicast)
        (holds_below_each _ 256 (mac_table local multicast) (u8 (x >>> 40)) (omega arith)) in
    ((refl, (h.0, omega arith)), h.1)

pub aai_bytes-IsOctets :
    (x : ℕ)
    → IsOctets 6 (with_first aai_first (put_uint48 x))
      × (octet (with_first aai_first (put_uint48 x)) 0 % 16 ≡ 2)
aai_bytes-IsOctets x =
    let h =
      both (aai_first (u8 (x >>> 40))) 256 16 2
        (holds_below_each _ 256 slap_table.0 (u8 (x >>> 40)) (omega arith)) in
    ((refl, (h.0, omega arith)), h.1)

pub sai_bytes-IsOctets :
    (x : ℕ)
    → IsOctets 6 (with_first sai_first (put_uint48 x))
      × (octet (with_first sai_first (put_uint48 x)) 0 % 16 ≡ 14)
sai_bytes-IsOctets x =
    let h =
      both (sai_first (u8 (x >>> 40))) 256 16 14
        (holds_below_each _ 256 slap_table.1 (u8 (x >>> 40)) (omega arith)) in
    ((refl, (h.0, omega arith)), h.1)

pub eui64_bytes-IsOctets :
    (x : ℕ)
    → IsOctets 8 (with_first eui64_first (put_uint64 x))
      × (octet (with_first eui64_first (put_uint64 x)) 0 % 4 ≡ 2)
unfolding put_uint64
eui64_bytes-IsOctets x =
    let h =
      both (eui64_first (u8 (x >>> 56))) 256 4 2
        (holds_below_each _ 256 slap_table.2 (u8 (x >>> 56)) (omega arith)) in
    ((refl, (h.0, omega arith)), h.1)

pub behind_oui-IsOctets :
    (oui : List ℕ) (x : ℕ)
    → length oui ≡ 3
    → All IsByte oui
    → IsOctets 6 (behind_oui oui x) × (take 3 (behind_oui oui x) ≡ oui)
behind_oui-IsOctets (a ∷ b ∷ c ∷ []) x len h =
    ((refl, (h.0, (h.1.0, (h.1.1.0, omega arith)))), refl)
behind_oui-IsOctets _ x len h = absurd (omega arith)

pub behind_oui_first :
    (oui : List ℕ) (x : ℕ) → length oui ≡ 3 → octet (behind_oui oui x) 0 ≡ octet oui 0
behind_oui_first [] x len = absurd (omega arith)
behind_oui_first (a ∷ r) x len = refl

pub big_endian-put_uint48 : (x : ℕ) → big_endian (put_uint48 x) ≡ x % 2 ^ 48
big_endian-put_uint48 x = omega arith

-- The loop accepts 46 bits between the extremes.
random46_in-lt : (x r : ℕ) → random46_in x ≡ some r → (0 < r) × (r < 2 ^ 46 - 1)
unfolding random46_in
random46_in-lt x r e = let m = bit_and_mask 46 x in ground arith

random46_in-IsFound : (x : ℕ) → IsMixed 46 (x % 2 ^ 46) → IsFound (random46_in x)
unfolding random46_in
random46_in-IsFound x h = let m = bit_and_mask 46 x in ground arith

pub random46_bytes-Returns :
    (top : ℕ) (ws : List ℕ)
    → top < 4
    → All IsU64 ws
    → Any (λ x. IsMixed 46 (x % 2 ^ 46)) ws
    → Returns (λ b. IsOctets 6 b × IsRandom46 top b) (random46_bytes (top <<< 46) ws)
unfolding random46_bytes
random46_bytes-Returns top [] small hs live = absurd live
random46_bytes-Returns top (x ∷ ws) small hs live =
    Returns-bind (λ r. (0 < r) × (r < 2 ^ 46 - 1)) _ (draw_until random46_in x ws) _
      (draw_until-Returns _ random46_in x ws (λ y r hy e. random46_in-lt y r e) hs.0 hs.1
        (Any-map _ _ (x ∷ ws) random46_in-IsFound live))
      (λ r rest h hr.
        let e = bit_or_fields_swap 46 top r (omega arith) in
        let v = big_endian-put_uint48 (bit_or r (top <<< 46)) in
        (((refl, omega arith), (omega arith, omega arith, omega arith)), hr))
