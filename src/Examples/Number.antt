-- ===== src/Examples/Number.antt =====
-- number.go on concrete words.
use randomizer.Base.{◌+◌, ◌/◌, ◌^◌, ◌<◌, ◌≡◌, refl, inl, inr, none, some, [], ◌∷◌, arith, Returns}
use randomizer.Base.Int.{pos, negsuc}
use randomizer.Number.{bounded_from, uniform_uint64n}
use randomizer.Number.Accepts.{first_accepted, bounded_from-first_accepted, bounded_from-Returns}
use randomizer.Number.Float.{float32, float64, gives_numerator, count-gives_numerator}
use randomizer.Number.Uniform.{count_below, gives, count-gives}
use randomizer.Number.Interval.{w8, w16, int_interval, uint_interval}
use randomizer.Number.Interval.InRange.{
  InInterval, Within, int_interval-Returns, uint_interval-Returns,
}

-- The low half of the product is below 6 for the word 0, and below 2 ^ 64 mod 6.
rejects_zero : bounded_from 0 6 (0x8000_0000_0000_0001 ∷ 7 ∷ []) ≡ some (3, 7 ∷ [])
unfolding bounded_from
rejects_zero = refl

no_more_words : bounded_from 0 6 [] ≡ none
unfolding bounded_from
no_more_words = refl

signed_bytes :
    int_interval w8 (negsuc 127) (pos 127) (0xffff_ffff_ffff_ffff ∷ []) ≡ some (pos 126, [])
unfolding int_interval uniform_uint64n
signed_bytes = refl

swapped : uint_interval w16 300 20 (0x8000_0000_0000_0001 ∷ []) ≡ some (160, [])
unfolding uint_interval uniform_uint64n
swapped = refl

bounded_from-first_accepted_example :
    bounded_from 0 6 (2 ^ 63 ∷ []) ≡ first_accepted 6 0 (2 ^ 63 ∷ [])
bounded_from-first_accepted_example =
    bounded_from-first_accepted 6 0 (2 ^ 63 ∷ []) (omega arith) (omega arith)

bounded_from-Returns_example : Returns (λ r. r < 6) (bounded_from 0 6 ((2 ^ 63 + 1) ∷ []))
bounded_from-Returns_example =
    bounded_from-Returns 6 0 ((2 ^ 63 + 1) ∷ []) (omega arith) (omega arith) (omega arith)
      (omega arith) (inr (inl (omega arith)))

count-gives_example : count_below (2 ^ 64) (gives 6 3) ≡ 2 ^ 64 / 6
count-gives_example = count-gives 6 3 (omega arith) (omega arith) (omega arith)

int_interval-Returns_example :
    Returns
      (InInterval (negsuc 127) (pos 100))
      (int_interval w8 (negsuc 127) (pos 100) ((2 ^ 63 + 1) ∷ []))
    × Returns
        (InInterval (negsuc 127) (pos 100))
        (int_interval w8 (pos 100) (negsuc 127) ((2 ^ 63 + 1) ∷ []))
int_interval-Returns_example =
    int_interval-Returns w8 (negsuc 127) (pos 100) ((2 ^ 63 + 1) ∷ []) (omega arith) (omega arith)
      (omega arith) (omega arith) (inl (omega arith))

uint_interval-Returns_example :
    Returns (Within 20 300) (uint_interval w16 20 300 ((2 ^ 63 + 1) ∷ []))
    × Returns (Within 20 300) (uint_interval w16 300 20 ((2 ^ 63 + 1) ∷ []))
uint_interval-Returns_example =
    uint_interval-Returns w16 20 300 ((2 ^ 63 + 1) ∷ []) (omega arith) (omega arith) (omega arith)
      (inl (omega arith))

count-gives_numerator_example :
    (count_below (2 ^ 64) (gives_numerator float32 5) ≡ 2 ^ 40)
    × (count_below (2 ^ 64) (gives_numerator float64 6) ≡ 2 ^ 11)
    × Returns (λ f. (f.numerator < 2 ^ 24) × (f.denominator ≡ 2 ^ 24)) (float32 (7 ∷ []))
    × Returns (λ f. (f.numerator < 2 ^ 53) × (f.denominator ≡ 2 ^ 53)) (float64 (7 ∷ []))
count-gives_numerator_example =
    count-gives_numerator 5 6 (7 ∷ []) (omega arith) (omega arith) (omega arith) (omega arith)
