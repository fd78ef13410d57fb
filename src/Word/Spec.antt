-- ===== src/Word/Spec.antt =====
-- The batches of `newBatchSpec`: how many positions a word yields for a base.
use randomizer.Base.{
  ℕ, zero, suc, ◌+◌, ◌-◌, ◌*◌, ◌/◌, ◌%◌, ◌^◌, ◌≤◌, ◌<◌, ◌≡◌, sym, ap, ◌∙◌, ◌⊎◌, inl, inr, true,
  false, ◌&&◌, arith, ltb, leb, ◌==◌, ltb→lt, ltb→le, le→ltb, leb→le, Bool-cases, u8, ◌<<<◌,
}
use randomizer.Number.{mul_hi, mul_lo, threshold}
use randomizer.Number.Accepts.{threshold_lem}
use randomizer.Word.{BatchSpec, grow_batch, shrink_batch, new_batch_spec}
use native.Mathlib.Nat.{
  pow-zero, pow-suc, one-le-pow, pow-le-pow_right, mul_assoc, mul_comm, mul-div_cancel, div-le_self,
}

-- The product is the power of the base, below 2 ^ 64.
abbrev pub IsPower : ℕ → BatchSpec → Type 0
IsPower n s = (s.prod ≡ n ^ s.k) × (s.prod < 2 ^ 64)

-- Every longer batch rejects more than one word in sixteen, or does not fit a word.
abbrev pub IsLongest : ℕ → ℕ → Type 0
IsLongest n k = (j : ℕ) → k < j → n ^ j < 2 ^ 64 → 2 ^ 60 < 2 ^ 64 % n ^ j

double : (a n : ℕ) → 2 ≤ n → a * 2 ≤ a * n
double a n h = grind arith

mul_twice : (p n q : ℕ) → 2 ≤ n → p * (q * 2) ≤ p * n * q
mul_twice p n q h = omega (
  arith,
  mul_assoc p q 2,
  mul_assoc p n q,
  ap (λ t. p * t) (mul_comm n q),
  mul_assoc p q n,
  double (p * q) n h,
)

grow_batch-IsPower :
    (fuel n prod k : ℕ)
    → 2 ≤ n
    → k + fuel ≤ 64
    → prod ≡ n ^ k
    → prod < 2 ^ 64
    → 2 ^ 64 ≤ prod * 2 ^ fuel
    → IsPower n (grow_batch fuel n prod k)
      × (k ≤ (grow_batch fuel n prod k).k)
      × ((grow_batch fuel n prod k).k ≤ 64)
      × (2 ^ 64 ≤ (grow_batch fuel n prod k).prod * n)
unfolding grow_batch
grow_batch-IsPower zero n prod k two room e lt big = absurd (omega arith)
grow_batch-IsPower (suc fuel) n prod k two room e lt big = elim (Bool-cases (mul_hi prod n == 0)) [
  | inl more ↦
      let small : prod * n < 2 ^ 64 = ground arith in
      let step : mul_lo prod n ≡ prod * n = omega arith in
      let next : u8 (k + 1) ≡ suc k = omega arith in
      let power : prod * n ≡ n ^ suc k = rw (pow-suc n k) (ap (λ t. t * n) e) in
      let twice = mul_twice prod n (2 ^ fuel) two in
      let ih =
        grow_batch-IsPower fuel n (prod * n) (suc k) two (omega arith) power small
          (omega (arith, ap (λ t. prod * t) (pow-suc 2 fuel))) in
      rw (more, step, next) (ih.0, omega arith, ih.2, ih.3)
  | inr done ↦ rw done ((e, lt), omega arith, omega arith, ground arith)
]

pow-div : (n k : ℕ) → 2 ≤ n → 1 ≤ k → n ^ k / n ≡ n ^ (k - 1)
pow-div n zero two h = absurd (omega arith)
pow-div n (suc k) two h =
    let same : suc k - 1 ≡ k = omega arith in
    rw (pow-suc n k, same) (mul-div_cancel (n ^ k) (omega arith))

too_many : (k t : ℕ) → (ltb 1 k && ltb (1 <<< 60) t) ≡ true → (1 < k) × (2 ^ 60 < t)
too_many k t h = ground arith

few_enough :
    (k t r : ℕ) → (ltb 1 k && ltb (1 <<< 60) t) ≡ false → 1 ≤ k → t ≡ r → (k ≡ 1) ⊎ (r ≤ 2 ^ 60)
few_enough k t r h some_position e = ground arith

shrink_batch-IsLongest :
    (fuel n prod k : ℕ)
    → 2 ≤ n
    → 1 ≤ k
    → k ≤ fuel
    → prod ≡ n ^ k
    → prod < 2 ^ 64
    → IsLongest n k
    → IsPower n (shrink_batch fuel n prod k)
      × (1 ≤ (shrink_batch fuel n prod k).k)
      × (((shrink_batch fuel n prod k).k ≡ 1)
          ⊎ (2 ^ 64 % (shrink_batch fuel n prod k).prod ≤ 2 ^ 60))
      × IsLongest n (shrink_batch fuel n prod k).k
unfolding shrink_batch
shrink_batch-IsLongest zero n prod k two some_position room e lt rest = absurd (omega arith)
shrink_batch-IsLongest (suc fuel) n prod k two some_position room e lt rest =
    let reading = threshold_lem prod (rw e (one-le-pow k n (omega arith))) lt in
    elim (Bool-cases (ltb 1 k && ltb (1 <<< 60) (threshold prod))) [
      | inl more ↦
          let (above, many) = too_many k (threshold prod) more in
          let power : prod / n ≡ n ^ (k - 1) = ap (λ t. t / n) e ∙ pow-div n k two some_position in
          let fits : prod / n < 2 ^ 64 = omega (arith, div-le_self prod n) in
          rw more (
            shrink_batch-IsLongest fuel n (prod / n) (k - 1) two (omega arith) (omega arith) power
              fits
              (λ j gt small. elim (Bool-cases (ltb k j)) [
                | inl later ↦ rest j (ltb→lt k j later) small
                | inr now ↦
                    let same : j ≡ k = omega (arith, ltb→le k j now) in
                    rw (same, ← e) (omega (arith, reading))
              ]))
      | inr done ↦
          rw done (
            (e, lt),
            some_position,
            few_enough k (threshold prod) _ done some_position reading,
            rest,
          )
    ]

some_factor : (n k prod : ℕ) → prod ≡ n ^ k → 2 ^ 64 ≤ prod * n → n < 2 ^ 64 → 1 ≤ k
some_factor n zero prod e big small = absurd (omega (arith, ap (λ t. t * n) (e ∙ pow-zero n)))
some_factor n (suc k) prod e big small = omega arith

-- The batch of a base.
pub new_batch_spec-IsLongest :
    (n : ℕ)
    → 2 ≤ n
    → n < 2 ^ 64
    → IsPower n (new_batch_spec n)
      × (1 ≤ (new_batch_spec n).k)
      × (((new_batch_spec n).k ≡ 1) ⊎ (2 ^ 64 % (new_batch_spec n).prod ≤ 2 ^ 60))
      × IsLongest n (new_batch_spec n).k
unfolding new_batch_spec
new_batch_spec-IsLongest n two small =
    let grown = grow_batch 64 n 1 0 in
    let (power, from, few, full) =
      grow_batch-IsPower 64 n 1 0 two (omega arith) (sym (pow-zero n)) (omega arith)
        (omega arith) in
    rw (le→ltb n 2 two) (
      shrink_batch-IsLongest 64 n grown.prod grown.k two
        (some_factor n grown.k grown.prod power.0 full small) few power.0 power.1
        (λ j gt below. absurd (
          omega (
            arith,
            pow-le-pow_right {n = n} (omega arith) {i = suc grown.k} {j = j} gt,
            pow-suc n grown.k,
            ap (λ t. t * n) power.0,
          ))))

-- For a base n with 2 <= n < 2 ^ 64 `newBatchSpec` gives n ^ k and k, where n ^ k is below 2 ^ 64, k is
-- at least 1, and at most one word in sixteen is rejected unless k is 1. Every j above k would
-- reject more than that, or n ^ j does not fit a word.
pub new_batch_spec_lem :
    (n j : ℕ)
    → 2 ≤ n
    → n < 2 ^ 64
    → IsPower n (new_batch_spec n)
      × (1 ≤ (new_batch_spec n).k)
      × (((new_batch_spec n).k ≡ 1) ⊎ (2 ^ 64 % (new_batch_spec n).prod ≤ 2 ^ 60))
      × ((j ≤ (new_batch_spec n).k) ⊎ (2 ^ 64 ≤ n ^ j) ⊎ (2 ^ 60 < 2 ^ 64 % n ^ j))
new_batch_spec_lem n j two small =
    let (power, some_position, few, longest) = new_batch_spec-IsLongest n two small in
    let last : (j ≤ (new_batch_spec n).k) ⊎ (2 ^ 64 ≤ n ^ j) ⊎ (2 ^ 60 < 2 ^ 64 % n ^ j) =
      elim (Bool-cases (leb j (new_batch_spec n).k)) [
        | inl le ↦ inl (leb→le _ _ le)
        | inr gt ↦ elim (Bool-cases (ltb (n ^ j) (2 ^ 64))) [
          | inl fits ↦ inr (inr (longest j (ground arith) (ltb→lt _ _ fits)))
          | inr big ↦ inr (inl (ltb→le _ _ big))
        ]
      ] in
    (power, some_position, few, last)
