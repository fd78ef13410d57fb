-- ===== src/Base/Bits/Merge.antt =====
-- `a & m | b &^ m`: the bits of `a` where the mask has them, those of `b` elsewhere.
use randomizer.Base.{
  ℕ, zero, suc, ◌+◌, ◌-◌, ◌/◌, ◌%◌, ◌^◌, ◌≤◌, ◌<◌, min, max, bit_and, bit_or, ◌≡◌, refl, ap, arith,
  and_not,
}
use mathlib.Core.Path.{ap₂}
use randomizer.Base.Bits.Step.{bit_and_halves, bit_or_halves}
use randomizer.Base.Bits.{bit_and-le, bit_or-lt}

abbrev pub merge : ℕ → ℕ → ℕ → ℕ
merge a b m = bit_or (bit_and a m) (and_not b m)

module _ (a b m : ℕ) where
  abbrev taken : ℕ
  taken = bit_and a m

  abbrev left : ℕ
  left = and_not b m

  half_taken : (taken / 2 ≡ bit_and (a / 2) (m / 2)) × (taken % 2 ≡ min (a % 2) (m % 2))
  half_taken = omega (arith, bit_and_halves a m)

  half_left : (left / 2 ≡ and_not (b / 2) (m / 2)) × (left % 2 ≡ b % 2 - min (b % 2) (m % 2))
  half_left = omega (arith, bit_and_halves b m, bit_and-le (b / 2) (m / 2))

  merge_halves :
      (merge a b m / 2 ≡ merge (a / 2) (b / 2) (m / 2))
      × (merge a b m % 2 ≡ max (min (a % 2) (m % 2)) (b % 2 - min (b % 2) (m % 2)))
  merge_halves =
      omega (
        arith,
        bit_or_halves taken left,
        ap₂ bit_or half_taken.0 half_left.0,
        half_taken,
        half_left,
      )

kept : (n a b m : ℕ) → a ≤ n → b ≤ n → m ≤ n → bit_and (merge a b m) m ≡ bit_and a m
kept zero a b m ha hb hm =
    let ea : a ≡ 0 = omega arith in
    let eb : b ≡ 0 = omega arith in let em : m ≡ 0 = omega arith in rw (ea, eb, em) refl
kept (suc n) a b m ha hb hm = omega (
  arith,
  bit_and_halves (merge a b m) m,
  bit_and_halves a m,
  ap (λ t. bit_and t (m / 2)) (merge_halves a b m).0,
  merge_halves a b m,
  kept n (a / 2) (b / 2) (m / 2) (omega arith) (omega arith) (omega arith),
)

others : (n a b m : ℕ) → a ≤ n → b ≤ n → m ≤ n → and_not (merge a b m) m ≡ and_not b m
others zero a b m ha hb hm =
    let ea : a ≡ 0 = omega arith in
    let eb : b ≡ 0 = omega arith in let em : m ≡ 0 = omega arith in rw (ea, eb, em) refl
others (suc n) a b m ha hb hm = omega (
  arith,
  half_left (merge a b m) (merge a b m) m,
  half_left b b m,
  ap (λ t. and_not t (m / 2)) (merge_halves a b m).0,
  merge_halves a b m,
  others n (a / 2) (b / 2) (m / 2) (omega arith) (omega arith) (omega arith),
)

-- Under the mask the merged word is `a`, elsewhere it is `b`.
pub merge_lem :
    (a b m : ℕ) → (bit_and (merge a b m) m ≡ bit_and a m) × (and_not (merge a b m) m ≡ and_not b m)
merge_lem a b m = (
  kept (a + b + m) a b m (omega arith) (omega arith) (omega arith),
  others (a + b + m) a b m (omega arith) (omega arith) (omega arith),
)

pub merge-lt : (k a b m : ℕ) → a < 2 ^ k → b < 2 ^ k → merge a b m < 2 ^ k
merge-lt k a b m ha hb =
    bit_or-lt k (bit_and a m) (and_not b m) (omega (arith, bit_and-le a m)) (omega arith)
