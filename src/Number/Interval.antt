-- ===== src/Number/Interval.antt =====
-- number.go: `Int`, `IntInterval`, `Uint` and `UintInterval` at every width.
pub mod InRange
use randomizer.Base.{
  ℕ, suc, ◌+◌, ◌-◌, ◌%◌, ◌^◌, ◌≤◌, ◌<◌, bit_xor, ltb, ◌==◌, if◌then◌else◌, u64, Draw, pure, ◌>>=◌,
  ◌>>◌, sum64,
}
use randomizer.Base.Int.{ℤ, pos, negsuc, pos_part, neg_part, ltb_ℤ, eqb_ℤ}
use randomizer.Number.{uniform_uint64n}

-- The integer types of the constraints; `int`, `uint` and `uintptr` have the width of the platform.
pub data Width : Type 0 where
  w8 w16 w32 w64 : Width

abbrev pub modulus : Width → ℕ
modulus w8 = 2 ^ 8
modulus w16 = 2 ^ 16
modulus w32 = 2 ^ 32
modulus w64 = 2 ^ 64

abbrev pub half : Width → ℕ
half w8 = 2 ^ 7
half w16 = 2 ^ 15
half w32 = 2 ^ 31
half w64 = 2 ^ 63

abbrev sign_mask : ℕ
sign_mask = 2 ^ 63

-- `uint64(int64(z))`: the two's complement pattern of an integer that fits 64 bits.
unfoldable pub int64_bits : ℤ → ℕ
int64_bits (pos n) = n
int64_bits (negsuc n) = 2 ^ 64 - suc n

-- `T(int64(u))`: the lowest bits of `u` as a signed number of the width.
unfoldable pub truncate : Width → ℕ → ℤ
truncate w u = let r = u % modulus w in if ltb r (half w) then pos r else negsuc (modulus w - suc r)

unfoldable pub int : Width → Draw ℤ
unfolding truncate
int w = do x ← sum64; pure (truncate w x)

unfoldable pub uint : Width → Draw ℕ
uint w = do x ← sum64; pure (x % modulus w)

-- `IntInterval` behind its swap.
unfoldable pub int_between : Width → ℤ → ℤ → Draw ℤ
unfolding int64_bits truncate
int_between w lo hi =
    let lo_bits = bit_xor (int64_bits lo) sign_mask in
    let hi_bits = bit_xor (int64_bits hi) sign_mask in
    do
      v ← uniform_uint64n (u64 (hi_bits + 2 ^ 64 - lo_bits))
      pure (truncate w (bit_xor (u64 (lo_bits + v)) sign_mask))

unfoldable pub int_interval : Width → ℤ → ℤ → Draw ℤ
unfolding int_between
int_interval w a b =
    if eqb_ℤ a b then pure a else if ltb_ℤ b a then int_between w b a else int_between w a b

-- `UintInterval` behind its swap; the sums are those of the width.
unfoldable pub uint_between : Width → ℕ → ℕ → Draw ℕ
uint_between w lo hi = do v ← uniform_uint64n (hi - lo); pure ((lo + v % modulus w) % modulus w)

unfoldable pub uint_interval : Width → ℕ → ℕ → Draw ℕ
unfolding uint_between
uint_interval w a b =
    if a == b then pure a else if ltb b a then uint_between w b a else uint_between w a b

-- The integers of a signed type.
abbrev pub Fits : Width → ℤ → Type 0
Fits w z = (pos_part z < half w) × (neg_part z ≤ half w)
