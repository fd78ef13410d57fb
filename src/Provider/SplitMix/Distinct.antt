-- ===== src/Provider/SplitMix/Distinct.antt =====
-- The values of one counter are pairwise different.
use randomizer.Base.{
  ℕ, zero, suc, ◌+◌, ◌*◌, ◌^◌, ◌≤◌, ◌<◌, bit_xor, ◌≡◌, refl, sym, ap, ◌∙◌, ◌≢◌, List, [], ◌∷◌, map,
  arith, length, get_or, u64, IsU64, ◌>>>◌,
}
use randomizer.Base.Bits.{bit_xor-lt}
use randomizer.Base.Bits.Xorshift.{xorshift_injective}
use native.Mathlib.Nat.{div-le_self}
use randomizer.Provider.SplitMix.{gamma, split_mix64, add_gamma, serve}

-- The multipliers of the mixer and the step of the counter are odd.
first_injective :
    (a b : ℕ)
    → IsU64 a
    → IsU64 b
    → u64 (a * 0xbf58476d1ce4e5b9) ≡ u64 (b * 0xbf58476d1ce4e5b9)
    → a ≡ b
first_injective a b ha hb e = omega arith

second_injective :
    (a b : ℕ)
    → IsU64 a
    → IsU64 b
    → u64 (a * 0x94d049bb133111eb) ≡ u64 (b * 0x94d049bb133111eb)
    → a ≡ b
second_injective a b ha hb e = omega arith

steps_differ :
    (s i j : ℕ)
    → i < 2 ^ 64
    → j < 2 ^ 64
    → u64 (s + suc i * gamma) ≡ u64 (s + suc j * gamma)
    → i ≡ j
steps_differ s i j hi hj e = omega arith

xorshift-IsU64 : (k x : ℕ) → IsU64 x → IsU64 (bit_xor x (x >>> k))
xorshift-IsU64 k x h = bit_xor-lt 64 x (x >>> k) h (omega (arith, div-le_self x (2 ^ k)))

-- No two 64-bit words have the same avalanche: `splitMix64` is one to one.
pub split_mix64_injective : (a b : ℕ) → IsU64 a → IsU64 b → split_mix64 a ≡ split_mix64 b → a ≡ b
unfolding split_mix64
split_mix64_injective a b ha hb e = xorshift_injective 30 a b refl (omega arith) (omega arith) (
    first_injective _ _ (xorshift-IsU64 30 a ha) (xorshift-IsU64 30 b hb) (
      xorshift_injective 27 _ _ refl (omega arith) (omega arith) (
        second_injective _ _ (xorshift-IsU64 27 _ (omega arith)) (xorshift-IsU64 27 _ (omega arith))
          (xorshift_injective 31 _ _ refl (omega arith) (omega arith) e))))

-- The values that calls in this order are given.
abbrev pub values {ℓ} : {C : Type ℓ} → List C → ℕ → List ℕ
values callers s = map (λ p. p.1) (serve callers s)

-- The call number `i` gets the avalanche of the seed and `i + 1` steps, whoever makes it.
pub served {ℓ} :
    {C : Type ℓ} (callers : List C) (s i : ℕ)
    → i < length callers
    → get_or (values callers s) i 0 ≡ split_mix64 (u64 (s + suc i * gamma))
unfolding serve
served [] s i h = absurd (omega arith)
served (c ∷ callers) s zero h =
    let e : u64 (s + gamma) ≡ u64 (s + 1 * gamma) = omega arith in ap split_mix64 e
served (c ∷ callers) s (suc i) h =
    let e : u64 (add_gamma s + suc i * gamma) ≡ u64 (s + suc (suc i) * gamma) = omega arith in
    served callers (add_gamma s) i (omega arith) ∙ ap split_mix64 e

-- In every interleaving of at most 2 ^ 64 concurrent `Sum64` calls on one counter, two different
-- calls get different values, whichever callers they belong to.
pub serve-distinct {ℓ} :
    {C : Type ℓ} (callers : List C) (s i j : ℕ)
    → length callers ≤ 2 ^ 64
    → i < j
    → j < length callers
    → get_or (values callers s) i 0 ≢ get_or (values callers s) j 0
serve-distinct callers s i j few lt within same =
    let e =
      split_mix64_injective (u64 (s + suc i * gamma)) (u64 (s + suc j * gamma)) (omega arith)
        (omega arith) (sym (served callers s i (omega arith)) ∙ same ∙ served callers s j within) in
    omega (arith, steps_differ s i j (omega arith) (omega arith) e)
