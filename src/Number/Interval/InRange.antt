-- ===== src/Number/Interval/InRange.antt =====
-- The results of `IntInterval` and `UintInterval` lie between the bounds.
use randomizer.Base.{
  ℕ, zero, suc, ◌+◌, ◌-◌, ◌*◌, ◌/◌, ◌%◌, ◌^◌, ◌≤◌, ◌<◌, bit_xor, ◌≡◌, refl, ap, true, some, List,
  arith, All, Any, u64, IsU64, Returns, Returns-bind,
}
use randomizer.Base.Int.{ℤ, pos, negsuc, pos_part, neg_part, ◌≤ℤ◌, ◌<ℤ◌, eqb_ℤ, distance}
use randomizer.Base.Bits.{bit_xor_split, bit_xor-zero}
use randomizer.Number.{uniform_uint64n}
use randomizer.Number.Accepts.{Accepts, uniform_uint64n-Returns}
use randomizer.Number.Interval.{
  Width, w8, w16, w32, w64, modulus, half, sign_mask, int64_bits, truncate, int_between,
  int_interval, uint_between, uint_interval, Fits,
}

top_flips : (q : ℕ) → q < 2 → bit_xor q 1 ≡ 1 - q
top_flips zero h = refl
top_flips (suc zero) h = refl
top_flips (suc (suc q)) h = absurd (omega arith)

-- Flipping the sign bit adds 2 ^ 63, so that the patterns keep the order of the integers.
flip_sign : (u : ℕ) → IsU64 u → bit_xor u sign_mask ≡ (u + 2 ^ 63) % 2 ^ 64
flip_sign u h = omega (
  arith,
  ap (λ t. bit_xor t sign_mask) (let e : u ≡ u / 2 ^ 63 * 2 ^ 63 + u % 2 ^ 63 = omega arith in e),
  bit_xor_split 63 (u / 2 ^ 63) (u % 2 ^ 63) 1 0 (omega arith) (omega arith),
  bit_xor-zero (u % 2 ^ 63),
  top_flips (u / 2 ^ 63) (omega arith),
)

biased : (z : ℤ) → Fits w64 z → bit_xor (int64_bits z) sign_mask + neg_part z ≡ 2 ^ 63 + pos_part z
unfolding int64_bits
biased (pos n) h = omega (arith, flip_sign n (omega arith))
biased (negsuc n) h = omega (arith, flip_sign (2 ^ 64 - suc n) (omega arith))

-- Taking the bias off again, within the range of the width.
truncate_biased :
    (w : Width) (b : ℕ)
    → 2 ^ 63 ≤ b + half w
    → b < 2 ^ 63 + half w
    → (pos_part (truncate w (bit_xor b sign_mask)) + 2 ^ 63
        ≡ neg_part (truncate w (bit_xor b sign_mask)) + b)
unfolding truncate
truncate_biased w8 b lo hi = ground (arith, flip_sign b (omega arith))
truncate_biased w16 b lo hi = ground (arith, flip_sign b (omega arith))
truncate_biased w32 b lo hi = ground (arith, flip_sign b (omega arith))
truncate_biased w64 b lo hi = ground (arith, flip_sign b (omega arith))

Fits-w64 : (w : Width) (z : ℤ) → Fits w z → Fits w64 z
Fits-w64 w8 z h = omega arith
Fits-w64 w16 z h = omega arith
Fits-w64 w32 z h = omega arith
Fits-w64 w64 z h = h

-- lo ≤ r < hi
abbrev pub InInterval : ℤ → ℤ → ℤ → Type 0
InInterval lo hi r = (lo ≤ℤ r) × (r <ℤ hi)

module _ (w : Width) (lo hi : ℤ) (lo_fits : Fits w lo) (hi_fits : Fits w hi) (lt : lo <ℤ hi) where
  int_between_value :
      (v : ℕ)
      → v < distance lo hi
      → InInterval lo hi
          (truncate w (bit_xor (u64 (bit_xor (int64_bits lo) sign_mask + v)) sign_mask))
  int_between_value v h =
      let bl = biased lo (Fits-w64 w lo lo_fits) in
      let b : ℕ = bit_xor (int64_bits lo) sign_mask + v in
      let small : u64 b ≡ b = omega (arith, Fits-w64 w hi hi_fits) in
      rw small (omega (arith, bl, truncate_biased w b (omega (arith, bl)) (omega (arith, bl))))

  span :
      u64 (bit_xor (int64_bits hi) sign_mask + 2 ^ 64 - bit_xor (int64_bits lo) sign_mask)
      ≡ distance lo hi
  span = omega (
    arith,
    biased lo (Fits-w64 w lo lo_fits),
    biased hi (Fits-w64 w hi hi_fits),
    Fits-w64 w lo lo_fits,
    Fits-w64 w hi hi_fits,
  )

  int_between-Returns :
      (ws : List ℕ)
      → All IsU64 ws
      → Any (Accepts (distance lo hi)) ws
      → Returns (InInterval lo hi) (int_between w lo hi ws)
  unfolding int_between
  int_between-Returns ws hs live = rw span (
      Returns-bind (λ v. v < distance lo hi) (InInterval lo hi)
        (uniform_uint64n (distance lo hi) ws) _
        (uniform_uint64n-Returns (distance lo hi) ws (omega arith)
          (omega (arith, Fits-w64 w lo lo_fits, Fits-w64 w hi hi_fits)) hs live)
        (λ v rest h hr. (int_between_value v h, hr)))

-- lo ≤ r < hi, for a result and bounds of an unsigned type.
abbrev pub Within : ℕ → ℕ → ℕ → Type 0
Within lo hi r = (lo ≤ r) × (r < hi)

-- For bounds that fit the signed type, lower one first or not, `IntInterval` returns an integer of
-- the type from the lower bound up to, not including, the higher one, once an accepted word is drawn.
pub int_interval-Returns :
    (w : Width) (lo hi : ℤ) (ws : List ℕ)
    → Fits w lo
    → Fits w hi
    → lo <ℤ hi
    → All IsU64 ws
    → Any (Accepts (distance lo hi)) ws
    → Returns (InInterval lo hi) (int_interval w lo hi ws)
      × Returns (InInterval lo hi) (int_interval w hi lo ws)
unfolding int_interval
int_interval-Returns w lo hi ws lo_fits hi_fits lt hs live =
    let r = int_between-Returns w lo hi lo_fits hi_fits lt ws hs live in
    (ground arith, ground arith)

eqb_ℤ-eq : (a b : ℤ) → eqb_ℤ a b ≡ true → a ≡ b
eqb_ℤ-eq a b h = ground arith

-- Swapping the bounds changes nothing, and equal bounds are returned with no word drawn.
pub int_interval_swap :
    (w : Width) (a b : ℤ) (ws : List ℕ)
    → (int_interval w a b ws ≡ int_interval w b a ws) × (int_interval w a a ws ≡ some (a, ws))
unfolding int_interval
int_interval_swap w a b ws = (ground (arith, eqb_ℤ-eq a b), ground arith)

modulus-le : (w : Width) → modulus w ≤ 2 ^ 64
modulus-le w8 = omega arith
modulus-le w16 = omega arith
modulus-le w32 = omega arith
modulus-le w64 = omega arith

no_wrap :
    (w : Width) (lo hi v : ℕ)
    → hi < modulus w
    → v < hi - lo
    → Within lo hi ((lo + v % modulus w) % modulus w)
no_wrap w8 lo hi v fits h = omega arith
no_wrap w16 lo hi v fits h = omega arith
no_wrap w32 lo hi v fits h = omega arith
no_wrap w64 lo hi v fits h = omega arith

uint_between-Returns :
    (w : Width) (lo hi : ℕ) (ws : List ℕ)
    → hi < modulus w
    → lo < hi
    → All IsU64 ws
    → Any (Accepts (hi - lo)) ws
    → Returns (Within lo hi) (uint_between w lo hi ws)
unfolding uint_between
uint_between-Returns w lo hi ws fits lt hs live =
    Returns-bind (λ v. v < hi - lo) (Within lo hi) (uniform_uint64n (hi - lo) ws) _
      (uniform_uint64n-Returns (hi - lo) ws (omega arith) (omega (arith, modulus-le w)) hs live)
      (λ v rest h hr. (no_wrap w lo hi v fits h, hr))

-- For bounds of the unsigned type, lower one first or not, `UintInterval` returns a number from the
-- lower bound up to, not including, the higher one, once an accepted word is drawn.
pub uint_interval-Returns :
    (w : Width) (lo hi : ℕ) (ws : List ℕ)
    → hi < modulus w
    → lo < hi
    → All IsU64 ws
    → Any (Accepts (hi - lo)) ws
    → Returns (Within lo hi) (uint_interval w lo hi ws)
      × Returns (Within lo hi) (uint_interval w hi lo ws)
unfolding uint_interval
uint_interval-Returns w lo hi ws fits lt hs live =
    let r = uint_between-Returns w lo hi ws fits lt hs live in (ground arith, ground arith)
