-- ===== src/Cidr/Mask.antt =====
-- The masks of cidr.go bit by bit.
use randomizer.Base.{
  ℕ, zero, suc, ◌+◌, ◌-◌, ◌*◌, ◌/◌, ◌%◌, ◌^◌, ◌≤◌, ◌<◌, bit_and, ◌≡◌, refl, ap, ◌∙◌, inl, inr, true,
  false, ◌&&◌, List, [], ◌∷◌, ◌++◌, arith, ltb, leb, ◌==◌, if◌then◌else◌, ==_iff, Bool-cases,
  holds_below, holds_below_each, length, get_or, take, replicate, set, length-set, length-replicate,
  set, All, IsByte, ◌>>>◌,
}
use native.Mathlib.Nat.{zero-div}
use randomizer.Base.Bits.{bit_and_mask, bit_and-zero}
use randomizer.Cidr.{clear_from, byte_mask, mask_host_bits, set_ones, fill_cidr_mask}

-- Bit `i` of a byte, and of a list of bytes, the highest first.
abbrev pub bit_of : ℕ → ℕ → ℕ
bit_of b i = b / 2 ^ (7 - i) % 2

abbrev pub bit_at : List ℕ → ℕ → ℕ
bit_at ip i = bit_of (get_or ip (i / 8) 0) (i % 8)

-- What a byte keeps under the mask of its first `rem` bits, for every byte, `rem` and bit.
partial_table :
    holds_below
      (λ n.
        let b = n / 64 in
        let rem = n / 8 % 8 in
        let i = n % 8 in
        bit_of (bit_and b (byte_mask rem)) i == (if ltb i rem then bit_of b i else 0))
      16384
    ≡ true
unfolding holds_below
partial_table = refl

pub partial_byte :
    (b rem i : ℕ)
    → b < 256
    → rem < 8
    → i < 8
    → bit_of (bit_and b (byte_mask rem)) i ≡ (if ltb i rem then bit_of b i else 0)
partial_byte b rem i hb hr hi =
    let n = b * 64 + rem * 8 + i in
    let eb : n / 64 ≡ b = omega arith in
    let er : n / 8 % 8 ≡ rem = omega arith in
    let ei : n % 8 ≡ i = omega arith in
    (==_iff _ _).0 (rw (eb, er, ei) at (holds_below_each _ 16384 partial_table n (omega arith)))

pub get_or-set :
    (xs : List ℕ) (i j v : ℕ)
    → i < length xs
    → get_or (set xs i v) j 0 ≡ (if i == j then v else get_or xs j 0)
get_or-set [] i j v h = elim h [ ]
get_or-set (x ∷ xs) zero zero v h = refl
get_or-set (x ∷ xs) zero (suc j) v h = ground arith
get_or-set (x ∷ xs) (suc i) zero v h = ground arith
get_or-set (x ∷ xs) (suc i) (suc j) v h = ground (arith, get_or-set xs i j v (omega arith))

pub get_or-zeros : (r j : ℕ) → get_or {A = ℕ} (replicate r 0) j 0 ≡ 0
get_or-zeros zero j = refl
get_or-zeros (suc r) zero = refl
get_or-zeros (suc r) (suc j) = get_or-zeros r j

get_or-take_zeros :
    (from : ℕ) (xs : List ℕ) (r j : ℕ)
    → get_or (take from xs ++ replicate r 0) j 0 ≡ (if ltb j from then get_or xs j 0 else 0)
get_or-take_zeros zero xs r j = ground (arith, get_or-zeros r j)
get_or-take_zeros (suc from) [] r j = ground (arith, get_or-zeros r j)
get_or-take_zeros (suc from) (x ∷ xs) r zero = ground arith
get_or-take_zeros (suc from) (x ∷ xs) r (suc j) = ground (arith, get_or-take_zeros from xs r j)

get_or-clear_from :
    (from : ℕ) (xs : List ℕ) (j : ℕ)
    → get_or (clear_from from xs) j 0 ≡ (if ltb j from then get_or xs j 0 else 0)
unfolding clear_from
get_or-clear_from from xs j = get_or-take_zeros from xs (length xs - from) j

-- The bytes of a masked address: whole ones, a partial one, zeros.
mask_host_bits_byte :
    (ip : List ℕ) (full rem j : ℕ)
    → rem < 8
    → full * 8 + rem ≤ 8 * length ip
    → get_or (mask_host_bits ip (full * 8 + rem)) j 0 ≡ (
        if ltb j full
        then get_or ip j 0
        else if j == full
        then bit_and (get_or ip j 0) (byte_mask rem)
        else 0)
unfolding mask_host_bits
mask_host_bits_byte ip full rem j small fits =
    let e : (full * 8 + rem) >>> 3 ≡ full = omega arith in
    let m : bit_and (full * 8 + rem) 7 ≡ rem = omega (arith, bit_and_mask 3 (full * 8 + rem)) in
    rw (e, m)
      (elim (Bool-cases (rem == 0)) [
        | inl z ↦ rw z (ground (arith, get_or-take_zeros full ip (length ip - full) j, whole z))
        | inr nz ↦ rw nz (
            ground (
              arith,
              get_or-take_zeros (full + 1) changed (length changed - (full + 1)) j,
              get_or-set ip full j (bit_and (get_or ip full 0) (byte_mask rem)) (ground arith),
            ))
      ])
  where
    changed : List ℕ
    changed = set ip full (bit_and (get_or ip full 0) (byte_mask rem))

    whole : (rem == 0) ≡ true → bit_and (get_or ip j 0) (byte_mask rem) ≡ 0
    whole z = rw ((==_iff rem 0).0 z) (bit_and-zero (get_or ip j 0))

pub get_or-IsByte : (ip : List ℕ) (j : ℕ) → All IsByte ip → get_or ip j 0 < 256
get_or-IsByte [] j h = omega arith
get_or-IsByte (x ∷ xs) zero h = h.0
get_or-IsByte (x ∷ xs) (suc j) h = get_or-IsByte xs j h.1

-- A masked address keeps its first `bits` bits, and all others are zero.
pub bit_at-mask_host_bits :
    (ip : List ℕ) (bits i : ℕ)
    → All IsByte ip
    → bits ≤ 8 * length ip
    → bit_at (mask_host_bits ip bits) i ≡ (if ltb i bits then bit_at ip i else 0)
bit_at-mask_host_bits ip bits i bytes fits =
    let full = bits / 8 in
    let rem = bits % 8 in
    let e : bits ≡ full * 8 + rem = omega arith in
    rw (ap (mask_host_bits ip) e) (
      rw (mask_host_bits_byte ip full rem (i / 8) (omega arith) (omega arith)) (
        ground (
          arith,
          partial_byte (get_or ip (i / 8) 0) rem (i % 8) (get_or-IsByte ip (i / 8) bytes)
              (omega arith) (omega arith),
        )))

-- The ones that the loop sets.
set_ones-get_or :
    (rounds i : ℕ) (mask : List ℕ) (j : ℕ)
    → i + rounds ≤ length mask
    → get_or (set_ones rounds i mask) j 0
      ≡ (if leb i j && ltb j (i + rounds) then 0xff else get_or mask j 0)
unfolding set_ones
set_ones-get_or zero i mask j h = ground arith
set_ones-get_or (suc rounds) i mask j h = ground (
  arith,
  set_ones-get_or rounds (i + 1) (set mask i 0xff) j (omega (arith, length-set mask i 0xff)),
  get_or-set mask i j 0xff (omega arith),
)

ones_table :
    (holds_below (λ i. bit_of 0xff i == 1) 8 ≡ true)
    × (holds_below
          (λ n. bit_of (byte_mask (n / 8)) (n % 8) == (if ltb (n % 8) (n / 8) then 1 else 0))
          64
        ≡ true)
unfolding holds_below
ones_table = (refl, refl)

one_bit : (i : ℕ) → i < 8 → bit_of 0xff i ≡ 1
one_bit i h = (==_iff _ _).0 (holds_below_each _ 8 ones_table.0 i h)

partial_one :
    (rem i : ℕ) → rem < 8 → i < 8 → bit_of (byte_mask rem) i ≡ (if ltb i rem then 1 else 0)
partial_one rem i hr hi =
    let n = rem * 8 + i in
    let er : n / 8 ≡ rem = omega arith in
    let ei : n % 8 ≡ i = omega arith in
    (==_iff _ _).0 (rw (er, ei) at (holds_below_each _ 64 ones_table.1 n (omega arith)))

pub length-set_ones : (rounds i : ℕ) (mask : List ℕ) → length (set_ones rounds i mask) ≡ length mask
unfolding set_ones
length-set_ones zero i mask = refl
length-set_ones (suc rounds) i mask =
    length-set_ones rounds (i + 1) (set mask i 0xff) ∙ length-set mask i 0xff

pub zero_bit : (i : ℕ) → bit_of 0 i ≡ 0
zero_bit i = rw (zero-div (2 ^ (7 - i))) refl

-- The bytes of a mask: whole ones, a partial one, zeros.
fill_cidr_mask_byte :
    (n full rem j : ℕ)
    → rem < 8
    → full * 8 + rem ≤ 8 * n
    → get_or (fill_cidr_mask (replicate n 0) (full * 8 + rem)) j 0
      ≡ (if ltb j full then 0xff else if j == full then byte_mask rem else 0)
unfolding fill_cidr_mask
fill_cidr_mask_byte n full rem j small fits =
    let e : (full * 8 + rem) >>> 3 ≡ full = omega arith in
    let m : bit_and (full * 8 + rem) 7 ≡ rem = omega (arith, bit_and_mask 3 (full * 8 + rem)) in
    let zeros : List ℕ = replicate n 0 in
    let len = length-replicate {A = ℕ} n 0 in
    let loop = set_ones-get_or full 0 zeros j (omega (arith, len)) in
    let z = get_or-zeros n j in
    rw (e, m)
      (elim (Bool-cases (rem == 0)) [
        | inl r ↦ rw r (ground (arith, loop, z, no_bits r))
        | inr r ↦ rw r (
            ground (
              arith,
              loop,
              z,
              get_or-set (set_ones full 0 zeros) full j (byte_mask rem)
                  (omega (arith, length-set_ones full 0 zeros, len, pos_of r)),
            ))
      ])
  where
    no_bits : (rem == 0) ≡ true → byte_mask rem ≡ 0
    no_bits r = rw ((==_iff rem 0).0 r) refl

    pos_of : (rem == 0) ≡ false → 0 < rem
    pos_of r = ground arith

-- A mask of `bits` bits has exactly its first `bits` bits set.
pub bit_at-fill_cidr_mask :
    (n bits i : ℕ)
    → bits ≤ 8 * n
    → bit_at (fill_cidr_mask (replicate n 0) bits) i ≡ (if ltb i bits then 1 else 0)
bit_at-fill_cidr_mask n bits i fits =
    let full = bits / 8 in
    let rem = bits % 8 in
    let e : bits ≡ full * 8 + rem = omega arith in
    rw (ap (fill_cidr_mask (replicate n 0)) e) (
      rw (fill_cidr_mask_byte n full rem (i / 8) (omega arith) (omega arith)) (
        ground (
          arith,
          one_bit (i % 8) (omega arith),
          zero_bit (i % 8),
          partial_one rem (i % 8) (omega arith) (omega arith),
        )))
