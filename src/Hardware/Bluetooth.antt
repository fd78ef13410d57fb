-- ===== src/Hardware/Bluetooth.antt =====
-- Resolvable private addresses and the cipher cache.
use randomizer.Base.{
  ℕ, ◌+◌, ◌-◌, ◌*◌, ◌%◌, ◌^◌, ◌<◌, bit_and, bit_or, ◌≡◌, refl, sym, ap, ◌∙◌, ◌≢◌, inl, inr, Option,
  none, some, List, [], ◌∷◌, ◌++◌, arith, Bool-cases, get_or, take, drop, replicate, All, Any,
  Any-map, u8, u32, IsU64, ◌<<<◌, ◌>>>◌, same_bytes, same_bytes-eq, big_endian, Returns,
  Returns-bind, draw_until, draw_until-Returns, IsFound,
}
use randomizer.Base.Bits.{bit_and_mask, bit_or_fields, bit_or_fields_swap}
use randomizer.Hardware.{
  Cache, put_uint48, prand_in, cached_block, bluetooth_hash, hash_part, rpa_bytes,
}
use randomizer.Hardware.Kinds.{IsMixed, IsPrand, HashFrom}
use randomizer.Hardware.Bytes.{IsOctets, big_endian-put_uint48}

-- The cached block function is the one of the cached key.
abbrev pub CacheOk : (List ℕ → List ℕ → List ℕ) → Cache → Type 0
CacheOk aes none = Unit {0}
CacheOk aes (some (key, block)) = (x : List ℕ) → block x ≡ aes key x

-- What the cipher promises: blocks of sixteen bytes.
abbrev pub IsCipher : (List ℕ → List ℕ → List ℕ) → Type 0
IsCipher aes = (key x : List ℕ) → IsOctets 16 (aes key x)

cached_block_lem :
    (aes : List ℕ → List ℕ → List ℕ) (cache : Cache) (key x : List ℕ)
    → CacheOk aes cache
    → cached_block aes cache key x ≡ aes key x
unfolding cached_block
cached_block_lem aes none key x ok = refl
cached_block_lem aes (some (held, block)) key x ok = elim (Bool-cases (same_bytes held key)) [
  | inl e ↦ rw e (ok x ∙ ap (λ t. aes t x) (same_bytes-eq held key e))
  | inr e ↦ rw e refl
]

-- The lowest three bytes of a block as a number.
hash_of :
    (out : List ℕ)
    → IsOctets 16 out
    → (h : ℕ) × (bit_or (bit_or (get_or out 13 0 <<< 16) (get_or out 14 0 <<< 8)) (get_or out 15 0)
        ≡ h)
      × (h < 2 ^ 24)
      × (drop 13 out ≡ u8 (h >>> 16) ∷ u8 (h >>> 8) ∷ u8 h ∷ [])
hash_of (_ ∷ _ ∷ _ ∷ _ ∷ _ ∷ _ ∷ _ ∷ _ ∷ _ ∷ _ ∷ _ ∷ _ ∷ _ ∷ a ∷ b ∷ c ∷ []) o =
    let (la, lb, lc) : (a < 256) × (b < 256) × (c < 256) = omega (arith, o) in
    let high = bit_or_fields 16 a (b <<< 8) (omega arith) in
    let middle : (a <<< 16) + (b <<< 8) ≡ (a * 256 + b) * 2 ^ 8 = omega arith in
    let h = (a * 256 + b) * 2 ^ 8 + c in
    let ea : u8 (h >>> 16) ≡ a = omega arith in
    let eb : u8 (h >>> 8) ≡ b = omega arith in
    let ec : u8 h ≡ c = omega arith in
    (
      h,
      ap (λ t. bit_or t c) (high ∙ middle) ∙ bit_or_fields 8 (a * 256 + b) c lc,
      omega arith,
      rw (ea, eb, ec) refl,
    )
hash_of _ o = absurd (omega (arith, o.0))

prand_in-lt : (x y : ℕ) → prand_in x ≡ some y → (y % 2 ^ 22 ≢ 0) × (y % 2 ^ 22 ≢ 2 ^ 22 - 1)
unfolding prand_in
prand_in-lt x y e = let m = bit_and_mask 22 (u32 x) in ground arith

prand_in-IsFound : (x : ℕ) → IsMixed 22 (x % 2 ^ 22) → IsFound (prand_in x)
unfolding prand_in
prand_in-IsFound x h = let m = bit_and_mask 22 (u32 x) in ground arith

-- The two parts of the address.
parts_of :
    (prand hash : ℕ)
    → prand < 2 ^ 24
    → hash < 2 ^ 24
    → let b = put_uint48 (bit_or (prand <<< 24) hash) in
      (big_endian b ≡ prand * 2 ^ 24 + hash)
      × (take 3 b ≡ u8 (prand >>> 16) ∷ u8 (prand >>> 8) ∷ u8 prand ∷ [])
      × (drop 3 b ≡ u8 (hash >>> 16) ∷ u8 (hash >>> 8) ∷ u8 hash ∷ [])
parts_of prand hash hp hh =
    let e = bit_or_fields 24 prand hash hh in
    let v = prand * 2 ^ 24 + hash in
    let p2 : u8 (v >>> 40) ≡ u8 (prand >>> 16) = omega arith in
    let p1 : u8 (v >>> 32) ≡ u8 (prand >>> 8) = omega arith in
    let p0 : u8 (v >>> 24) ≡ u8 prand = omega arith in
    let h2 : u8 (v >>> 16) ≡ u8 (hash >>> 16) = omega arith in
    let h1 : u8 (v >>> 8) ≡ u8 (hash >>> 8) = omega arith in
    let h0 : u8 v ≡ u8 hash = omega arith in
    rw e (omega (arith, big_endian-put_uint48 v), rw (p2, p1, p0) refl, rw (h2, h1, h0) refl)

abbrev Rpa : (List ℕ → List ℕ → List ℕ) → Option (List ℕ) → List ℕ × Cache → Type 0
Rpa aes irk (b, after) = IsOctets 6 b × IsPrand b × HashFrom aes irk b × CacheOk aes after

-- The hash part: below 24 bits, and the cipher's where there is a key.
hash_part_lem :
    (aes : List ℕ → List ℕ → List ℕ) (cache : Cache) (irk : Option (List ℕ)) (x prand : ℕ)
    → IsCipher aes
    → CacheOk aes cache
    → ((hash_part aes cache irk x prand).0 < 2 ^ 24)
      × CacheOk aes (hash_part aes cache irk x prand).1
      × ((b : List ℕ)
          → take 3 b ≡ u8 (prand >>> 16) ∷ u8 (prand >>> 8) ∷ u8 prand ∷ []
          → drop 3 b ≡ (
              let h = (hash_part aes cache irk x prand).0 in
              u8 (h >>> 16) ∷ u8 (h >>> 8) ∷ u8 h ∷ [])
          → HashFrom aes irk b)
unfolding hash_part bluetooth_hash
hash_part_lem aes cache none x prand cipher ok =
    (omega (arith, bit_and_mask 24 (u32 (x >>> 32))), ok, λ b t d. tt)
hash_part_lem aes cache (some irk) x prand cipher ok =
    let input = replicate 13 0 ++ (u8 (prand >>> 16) ∷ u8 (prand >>> 8) ∷ u8 prand ∷ []) in
    let e = cached_block_lem aes cache irk input ok in
    let h = hash_of (aes irk input) (cipher irk input) in
    rw e (
      rw (h.1) (h.2),
      λ y. cached_block_lem aes cache irk y ok,
      λ b t d.
          d
          ∙ ap (λ n. u8 (n >>> 16) ∷ u8 (n >>> 8) ∷ u8 n ∷ []) h.1
          ∙ sym h.3
          ∙ ap (λ u. drop 13 (aes irk (replicate 13 0 ++ u))) (sym t),
    )

pub rpa_bytes-Returns :
    (aes : List ℕ → List ℕ → List ℕ) (cache : Cache) (irk : Option (List ℕ)) (ws : List ℕ)
    → IsCipher aes
    → CacheOk aes cache
    → All IsU64 ws
    → Any (λ x. IsMixed 22 (x % 2 ^ 22)) ws
    → Returns (Rpa aes irk) (rpa_bytes aes cache irk ws)
unfolding rpa_bytes
rpa_bytes-Returns aes cache irk [] cipher ok hs live = absurd live
rpa_bytes-Returns aes cache irk (w ∷ ws) cipher ok hs live =
    Returns-bind (λ y. (y % 2 ^ 22 ≢ 0) × (y % 2 ^ 22 ≢ 2 ^ 22 - 1)) (Rpa aes irk)
      (draw_until prand_in w ws) _
      (draw_until-Returns _ prand_in w ws (λ x y hx e. prand_in-lt x y e) hs.0 hs.1
        (Any-map _ _ (w ∷ ws) prand_in-IsFound live))
      (λ x rest h hr.
        let m : bit_and (u32 x) (1 <<< 22 - 1) ≡ x % 2 ^ 22 =
          omega (arith, bit_and_mask 22 (u32 x)) in
        let flagged = bit_or_fields_swap 22 1 (bit_and (u32 x) (1 <<< 22 - 1)) (omega arith) in
        let prand = bit_or (bit_and (u32 x) (1 <<< 22 - 1)) (1 <<< 22) in
        let hash = hash_part_lem aes cache irk x prand cipher ok in
        let v = parts_of prand (hash_part aes cache irk x prand).0 (omega arith) hash.0 in
        (
          (
            (refl, omega arith),
            (omega (arith, v.0, hash.0), omega (arith, v.0, hash.0), omega (arith, v.0, hash.0)),
            hash.2 _ v.1 v.2,
            hash.1,
          ),
          hr,
        ))
