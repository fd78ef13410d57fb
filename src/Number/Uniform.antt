-- ===== src/Number/Uniform.antt =====
-- Uniformity of `boundedFrom`: counted over all 2 ^ 64 words, every result below `n` is given by
-- equally many of them.
use randomizer.Base.{
  ℕ, refl, sym, zero, suc, ◌+◌, ◌-◌, ◌*◌, ◌/◌, ◌%◌, ◌^◌, ◌≤◌, ◌<◌, min, ◌≡◌, ap, ◌↔◌, ◌⊎◌, inl, inr,
  Bool, true, false, none, some, [], arith, ltb, ◌==◌, if◌then◌else◌, ltb→lt, ltb→le, Bool-cases,
}
use randomizer.Number.{mul_hi, mul_lo, bounded_from}
use randomizer.Number.Accepts.{first_accepted, bounded_from-first_accepted}
use native.Mathlib.Nat.{mod-lt, div-add-mod, div-add-mod'}

-- How many numbers below `n` pass a test.
pub count_below : ℕ → (ℕ → Bool) → ℕ
count_below zero p = 0
count_below (suc n) p = count_below n p + (if p n then 1 else 0)

pub count_below_interval :
    (n : ℕ) (p : ℕ → Bool) (lo hi : ℕ)
    → ((x : ℕ) → x < n → (p x ≡ true) ↔ (lo ≤ x) × (x < hi))
    → count_below n p ≡ min n hi - lo
unfolding count_below
count_below_interval zero p lo hi h = omega arith
count_below_interval (suc n) p lo hi h =
    let ih = count_below_interval n p lo hi (λ x lt. h x (omega arith)) in
    let (there, back) = h n (omega arith) in
    elim (Bool-cases (p n)) [
      | inl e ↦ rw e (omega (arith, ih, there e))
      | inr e ↦ rw e (omega (arith, ih, outside e there back))
    ]
  where
    outside :
        p n ≡ false
        → (p n ≡ true → (lo ≤ n) × (n < hi))
        → ((lo ≤ n) × (n < hi) → p n ≡ true)
        → (n < lo) ⊎ (hi ≤ n)
    outside e there back = ground arith

-- Tests that agree below `n` are passed as often.
pub count_below_same :
    (n : ℕ) (p q : ℕ → Bool)
    → ((x : ℕ) → x < n → (p x ≡ true) ↔ (q x ≡ true))
    → count_below n p ≡ count_below n q
unfolding count_below
count_below_same zero p q h = refl
count_below_same (suc n) p q h =
    let ih = count_below_same n p q (λ x lt. h x (omega arith)) in
    let same : p n ≡ q n = both (p n) (q n) (h n (omega arith)) in rw (same, ih) refl
  where
    both : (a b : Bool) → (a ≡ true) ↔ (b ≡ true) → a ≡ b
    both true b h = sym (h.0 refl)
    both false true h = h.1 refl
    both false false h = refl

-- The word `x` alone gives `k`.
pub gives : ℕ → ℕ → ℕ → Bool
gives n k x = elim (bounded_from x n []) [ none ↦ false | some r ↦ r.0 == k ]

-- The least word whose product with `n` lies in the accepted part of the `k`-th block.
abbrev first_word : ℕ → ℕ → ℕ
first_word n k = (k * 2 ^ 64 + 2 ^ 64 % n + (n - 1)) / n

pub mul_mono : (a b n : ℕ) → a ≤ b → a * n ≤ b * n
mul_mono a b n h = grind arith

pub mul_cancel : (a b n : ℕ) → a * n < b * n → a < b
mul_cancel a b n h = elim (Bool-cases (ltb a b)) [
  | inl e ↦ ltb→lt a b e
  | inr e ↦ absurd (omega (arith, mul_mono b a n (ltb→le a b e)))
]

-- The blocks, over any word size `w`.
module _ (w n q t k x first hi lo : ℕ) (word : n * q + t ≡ w) (product : hi * w + lo ≡ x * n)
    (lo_lt : lo < w) (above : k * w + t ≤ first * n) (below : first * n < k * w + t + n) where
  block_to : t ≤ lo → hi ≡ k → (first ≤ x) × (x < first + q)
  block_to a e =
      let same : hi * w ≡ k * w = ap (λ t. t * w) e in
      let from : first < x + 1 = mul_cancel first (x + 1) n (omega arith) in
      (omega arith, mul_cancel x (first + q) n (omega arith))

  block_from : first ≤ x → x < first + q → (t ≤ lo) × (hi ≡ k)
  block_from a b =
      let lower = mul_mono first x n a in
      let upper = mul_mono (x + 1) (first + q) n (omega arith) in
      let le : hi < k + 1 = mul_cancel hi (k + 1) w (omega arith) in
      let ge : k < hi + 1 = mul_cancel k (hi + 1) w (omega arith) in
      let e : hi ≡ k = omega arith in
      let same : hi * w ≡ k * w = ap (λ t. t * w) e in (omega arith, e)

module _ (n k : ℕ) (pos : 0 < n) (small : n < 2 ^ 64) (k_lt : k < n) where
  first_word_bounds :
      (k * 2 ^ 64 + 2 ^ 64 % n ≤ first_word n k * n)
      × (first_word n k * n < k * 2 ^ 64 + 2 ^ 64 % n + n)
  first_word_bounds =
      let d = div-add-mod' (k * 2 ^ 64 + 2 ^ 64 % n + (n - 1)) n in
      let m = mod-lt (k * 2 ^ 64 + 2 ^ 64 % n + (n - 1)) pos in (omega arith, omega arith)

  pub gives_lem : (x : ℕ) → (gives n k x ≡ true) ↔ (2 ^ 64 % n ≤ mul_lo x n) × (mul_hi x n ≡ k)
  unfolding gives first_accepted
  gives_lem x = rw (gives, bounded_from-first_accepted n x [] pos small) (ground arith)

  -- The words that give `k` are 2 ^ 64 / n consecutive ones.
  pub gives-interval :
      (x : ℕ) → (gives n k x ≡ true) ↔ (first_word n k ≤ x) × (x < first_word n k + 2 ^ 64 / n)
  gives-interval x = (
    λ g.
        let (a, e) = (gives_lem x).0 g in
        block_to _ n _ _ k x _ _ _ word product lo_lt above below a e,
    λ r. (gives_lem x).1 (block_from _ n _ _ k x _ _ _ word product lo_lt above below r.0 r.1),
  )
    where
      word : n * (2 ^ 64 / n) + 2 ^ 64 % n ≡ 2 ^ 64
      word = div-add-mod (2 ^ 64) n

      product : mul_hi x n * 2 ^ 64 + mul_lo x n ≡ x * n
      product = omega arith

      lo_lt : mul_lo x n < 2 ^ 64
      lo_lt = omega arith

      above : k * 2 ^ 64 + 2 ^ 64 % n ≤ first_word n k * n
      above = first_word_bounds.0

      below : first_word n k * n < k * 2 ^ 64 + 2 ^ 64 % n + n
      below = first_word_bounds.1

  last_word : first_word n k + 2 ^ 64 / n ≤ 2 ^ 64
  last_word =
      let d = div-add-mod (2 ^ 64) n in
      let b = first_word_bounds.1 in
      let lt : first_word n k + 2 ^ 64 / n < 2 ^ 64 + 1 =
        mul_cancel (first_word n k + 2 ^ 64 / n) (2 ^ 64 + 1) n (omega arith) in
      omega arith

  -- For 0 < n < 2 ^ 64 every `k` below `n` is the result, without a further word, of exactly
  -- 2 ^ 64 / n (rounded down) of the 2 ^ 64 words that `boundedFrom` may start from.
  pub count-gives : count_below (2 ^ 64) (gives n k) ≡ 2 ^ 64 / n
  count-gives = omega (
    arith,
    count_below_interval (2 ^ 64) (gives n k) (first_word n k) (first_word n k + 2 ^ 64 / n)
        (λ x lt. gives-interval x),
    last_word,
  )
