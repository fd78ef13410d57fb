-- ===== src/Number.antt =====
-- number.go: bounded random integers by Lemire's method, and what is drawn with them.
pub mod Accepts
pub mod Uniform
pub mod Interval
pub mod Float
use randomizer.Base.{
  ℕ, ◌-◌, ◌*◌, ◌/◌, ◌%◌, ◌^◌, [], ◌∷◌, none, some, ltb, leb, if◌then◌else◌, u64, Draw, sum64, ◌>>=◌,
  ◌>>◌,
}

-- `bits.Mul64`: the high and the low half of a product of two words.
abbrev pub mul_hi : ℕ → ℕ → ℕ
mul_hi x n = x * n / 2 ^ 64

abbrev pub mul_lo : ℕ → ℕ → ℕ
mul_lo x n = x * n % 2 ^ 64

-- `-n % n` on `uint64`.
unfoldable pub threshold : ℕ → ℕ
threshold n = u64 (2 ^ 64 - n) % n

-- The loop of `boundedSlow` at the halves `hi` and `lo` of the last product.
unfoldable pub slow_loop : ℕ → ℕ → ℕ → ℕ → Draw ℕ
slow_loop n limit hi lo [] = if ltb lo limit then none else some (hi, [])
slow_loop n limit hi lo (w ∷ ws) =
    let redrawn = slow_loop n limit (mul_hi w n) (mul_lo w n) ws in
    if ltb lo limit then redrawn else some (hi, w ∷ ws)

unfoldable pub bounded_slow : ℕ → ℕ → Draw ℕ
unfolding slow_loop threshold
bounded_slow x n = slow_loop n (threshold n) (mul_hi x n) (mul_lo x n)

-- For `n` 0 the fast path is taken, so that the division of the slow path has no zero divisor.
unfoldable pub bounded_from : ℕ → ℕ → Draw ℕ
unfolding bounded_slow
bounded_from x n ws = if leb n (mul_lo x n) then some (mul_hi x n, ws) else bounded_slow x n ws

unfoldable pub uniform_uint64n : ℕ → Draw ℕ
unfolding bounded_from
uniform_uint64n n = do x ← sum64; bounded_from x n
