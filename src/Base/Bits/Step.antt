-- ===== src/Base/Bits/Step.antt =====
-- The native bit operations by their lowest digit: each is twice itself on the halves, plus a
-- function of the two lowest bits. The definition they stand for recurs with fuel, dropped here.
use Prim.Native.Nat.{
  ℕ, zero, suc, ◌+◌, ◌*◌, ◌/◌, ◌%◌, ◌≤◌, min, max, differ, digits, bitwise, bit_and, bit_or,
  bit_xor, bit_and-bitwise, bit_or-bitwise, bit_xor-bitwise,
}
use mathlib.Core.Path.{◌≡◌, refl}
use native.Mathlib.Omega.{arith}

module _ (rest : ℕ → ℕ) (bit : ℕ → ℕ → ℕ) where
  -- Fuel beyond the first number changes nothing.
  spare_fuel :
      (bound fuel a b : ℕ)
      → fuel ≤ bound
      → a ≤ fuel
      → digits rest bit fuel a b ≡ digits rest bit a a b
  spare_fuel bound zero zero b p q = refl
  spare_fuel bound (suc fuel) zero b p q = refl
  spare_fuel bound zero (suc a) b p q = elim q [ ]
  spare_fuel zero (suc fuel) (suc a) b p q = elim p [ ]
  spare_fuel (suc bound) (suc fuel) (suc a) b p q =
      let long = spare_fuel bound fuel (suc a / 2) (b / 2) (omega arith) (omega arith) in
      let short = spare_fuel bound a (suc a / 2) (b / 2) (omega arith) (omega arith) in
      omega (arith, long, short)

  by_halves :
      (a b : ℕ)
      → bitwise rest bit (suc a) b
        ≡ bitwise rest bit (suc a / 2) (b / 2) * 2 + bit (suc a % 2) (b % 2)
  by_halves a b = omega (arith, spare_fuel a a (suc a / 2) (b / 2) (omega arith) (omega arith))

pub bit_and_halves : (a b : ℕ) → bit_and a b ≡ min (a % 2) (b % 2) + 2 * bit_and (a / 2) (b / 2)
bit_and_halves (suc a) b = omega (
  arith,
  bit_and-bitwise (suc a) b,
  bit_and-bitwise (suc a / 2) (b / 2),
  by_halves (λ y. 0) min a b,
)
bit_and_halves zero b = omega (arith, bit_and-bitwise zero b, bit_and-bitwise zero (b / 2))

pub bit_or_halves : (a b : ℕ) → bit_or a b ≡ max (a % 2) (b % 2) + 2 * bit_or (a / 2) (b / 2)
bit_or_halves (suc a) b = omega (
  arith,
  bit_or-bitwise (suc a) b,
  bit_or-bitwise (suc a / 2) (b / 2),
  by_halves (λ y. y) max a b,
)
bit_or_halves zero b = omega (arith, bit_or-bitwise zero b, bit_or-bitwise zero (b / 2))

pub bit_xor_halves : (a b : ℕ) → bit_xor a b ≡ differ (a % 2) (b % 2) + 2 * bit_xor (a / 2) (b / 2)
bit_xor_halves (suc a) b = omega (
  arith,
  bit_xor-bitwise (suc a) b,
  bit_xor-bitwise (suc a / 2) (b / 2),
  by_halves (λ y. y) differ a b,
)
bit_xor_halves zero b = omega (arith, bit_xor-bitwise zero b, bit_xor-bitwise zero (b / 2))
