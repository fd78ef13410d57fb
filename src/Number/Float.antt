-- ===== src/Number/Float.antt =====
-- number.go: floating-point numbers. A result is a fraction of 2 ^ 24 or 2 ^ 53 whose numerator has as
-- many bits as the type's significand, so that the conversion and the product are exact.
use randomizer.Base.{
  ℕ, ◌+◌, ◌*◌, ◌^◌, ◌<◌, ◌≡◌, refl, ◌∙◌, Bool, false, none, some, List, [], ◌∷◌, arith, ◌==◌,
  length, All, IsU64, ◌>>>◌, Draw, pure, ◌>>=◌, sum64, Returns,
}
use randomizer.Provider.{runtime_sum32}
use randomizer.Number.Uniform.{count_below, count_below_interval}

pub record Fraction : Type 0 where
  pub numerator : ℕ
  pub denominator : ℕ

-- `Sum32` is the high half of a word, as it is for every provider that draws words.
unfoldable pub float32 : Draw Fraction
unfolding runtime_sum32
float32 = do x ← runtime_sum32; pure (record { numerator = x >>> 8; denominator = 2 ^ 24 })

unfoldable pub float64 : Draw Fraction
float64 = do x ← sum64; pure (record { numerator = x >>> 11; denominator = 2 ^ 53 })

-- The numerator that one word gives is `k`.
pub gives_numerator : Draw Fraction → ℕ → ℕ → Bool
gives_numerator draw k x = elim (draw (x ∷ [])) [ none ↦ false | some r ↦ r.0.numerator == k ]

-- Float32 gives each of the fractions k / 2 ^ 24 in [0, 1) on exactly 2 ^ 40 of the 2 ^ 64 words, and
-- Float64 each of the fractions k / 2 ^ 53 on exactly 2 ^ 11; on 64-bit words neither gives any other.
pub count-gives_numerator :
    (j k : ℕ) (ws : List ℕ)
    → j < 2 ^ 24
    → k < 2 ^ 53
    → All IsU64 ws
    → 0 < length ws
    → (count_below (2 ^ 64) (gives_numerator float32 j) ≡ 2 ^ 40)
      × (count_below (2 ^ 64) (gives_numerator float64 k) ≡ 2 ^ 11)
      × Returns (λ f. (f.numerator < 2 ^ 24) × (f.denominator ≡ 2 ^ 24)) (float32 ws)
      × Returns (λ f. (f.numerator < 2 ^ 53) × (f.denominator ≡ 2 ^ 53)) (float64 ws)
unfolding float32 float64 gives_numerator
count-gives_numerator j k [] hj hk hs live = absurd (omega arith)
count-gives_numerator j k (x ∷ ws) hj hk hs live = (
  count_below_interval (2 ^ 64) (gives_numerator float32 j) (j * 2 ^ 40) ((j + 1) * 2 ^ 40)
        (λ y hy. ground arith)
      ∙ omega arith,
  count_below_interval (2 ^ 64) (gives_numerator float64 k) (k * 2 ^ 11) ((k + 1) * 2 ^ 11)
        (λ y hy. ground arith)
      ∙ omega arith,
  ((omega arith, refl), hs.1),
  ((omega arith, refl), hs.1),
)
