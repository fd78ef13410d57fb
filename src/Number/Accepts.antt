-- ===== src/Number/Accepts.antt =====
-- Which words `boundedFrom` accepts, and its result as a search for the first accepted word.
use randomizer.Base.{
  ℕ, ◌%◌, ◌^◌, ◌≤◌, ◌<◌, ◌≡◌, sym, ap, ◌∙◌, List, [], ◌∷◌, none, some, leb, if◌then◌else◌, Draw,
  arith, IsU64, All, Any, inl, inr, Returns, Ensures, suc, Bool-cases, le→leb, Plenty, Plenty-past,
  Gives,
}
use randomizer.Number.{
  mul_hi, mul_lo, threshold, slow_loop, bounded_slow, bounded_from, uniform_uint64n,
}
use native.Mathlib.Nat.{mod-lt, mod-eq_of_lt, mod-eq-sub-mod, div-lt_iff_lt-mul}

-- The reference: a word is accepted when its low half is not among the first `2 ^ 64 mod n`.
abbrev pub Accepts : ℕ → ℕ → Type 0
Accepts n x = 2 ^ 64 % n ≤ mul_lo x n

-- The first accepted word decides; the words behind it are left over.
unfoldable pub first_accepted : ℕ → ℕ → Draw ℕ
first_accepted n x [] = if leb (2 ^ 64 % n) (mul_lo x n) then some (mul_hi x n, []) else none
first_accepted n x (w ∷ ws) =
    let later = first_accepted n w ws in
    if leb (2 ^ 64 % n) (mul_lo x n) then some (mul_hi x n, w ∷ ws) else later

pub threshold_lem : (n : ℕ) → 0 < n → n < 2 ^ 64 → threshold n ≡ 2 ^ 64 % n
unfolding threshold
threshold_lem n pos h =
    ap (λ t. t % n) (mod-eq_of_lt (omega arith))
    ∙ sym (mod-eq-sub-mod {n = 2 ^ 64} {m = n} (omega arith))

slow_loop_lem :
    (n x : ℕ) (ws : List ℕ)
    → slow_loop n (2 ^ 64 % n) (mul_hi x n) (mul_lo x n) ws ≡ first_accepted n x ws
unfolding slow_loop first_accepted
slow_loop_lem n x [] = ground arith
slow_loop_lem n x (w ∷ ws) = ground (arith, slow_loop_lem n w ws)

bounded_slow_lem :
    (n x : ℕ) (ws : List ℕ) → 0 < n → n < 2 ^ 64 → bounded_slow x n ws ≡ first_accepted n x ws
unfolding bounded_slow
bounded_slow_lem n x ws pos h = rw (threshold_lem n pos h) (slow_loop_lem n x ws)

-- The fast path needs no threshold: a low half of at least `n` is above it.
fast_accepts :
    (n x : ℕ) (ws : List ℕ) → 0 < n → n ≤ mul_lo x n → first_accepted n x ws ≡ some (mul_hi x n, ws)
unfolding first_accepted
fast_accepts n x [] pos h = ground (arith, mod-lt (2 ^ 64) pos)
fast_accepts n x (w ∷ ws) pos h = ground (arith, mod-lt (2 ^ 64) pos)

-- For 0 < n < 2 ^ 64 the two paths together search the words for the first whose low half with `n`
-- is at least 2 ^ 64 mod n, and return the high half of that product.
pub bounded_from-first_accepted :
    (n x : ℕ) (ws : List ℕ) → 0 < n → n < 2 ^ 64 → bounded_from x n ws ≡ first_accepted n x ws
unfolding bounded_from
bounded_from-first_accepted n x ws pos h =
    ground (arith, bounded_slow_lem n x ws pos h, fast_accepts n x ws pos)

pub mul_hi-lt : (n x : ℕ) → 0 < n → IsU64 x → mul_hi x n < n
mul_hi-lt n x pos hx = (div-lt_iff_lt-mul {k = 2 ^ 64} (omega arith)).1 (grind arith)

first_accepted-Returns :
    (n x : ℕ) (ws : List ℕ)
    → 0 < n
    → IsU64 x
    → All IsU64 ws
    → Any (Accepts n) (x ∷ ws)
    → Returns (λ r. r < n) (first_accepted n x ws)
unfolding first_accepted
first_accepted-Returns n x [] pos hx hs (inl a) = ground (arith, mul_hi-lt n x pos hx)
first_accepted-Returns n x [] pos hx hs (inr b) = absurd b
first_accepted-Returns n x (w ∷ ws) pos hx hs (inl a) = ground (arith, mul_hi-lt n x pos hx)
first_accepted-Returns n x (w ∷ ws) pos hx hs (inr b) =
    ground (arith, mul_hi-lt n x pos hx, first_accepted-Returns n w ws pos hs.0 hs.1 b)

-- With an accepted word among `x` and those to come, a bounded draw returns a number below `n`.
pub bounded_from-Returns :
    (n x : ℕ) (ws : List ℕ)
    → 0 < n
    → n < 2 ^ 64
    → IsU64 x
    → All IsU64 ws
    → Any (Accepts n) (x ∷ ws)
    → Returns (λ r. r < n) (bounded_from x n ws)
bounded_from-Returns n x ws pos h hx hs live =
    rw (bounded_from-first_accepted n x ws pos h) (first_accepted-Returns n x ws pos hx hs live)

pub uniform_uint64n-Returns :
    (n : ℕ) (ws : List ℕ)
    → 0 < n
    → n < 2 ^ 64
    → All IsU64 ws
    → Any (Accepts n) ws
    → Returns (λ r. r < n) (uniform_uint64n n ws)
unfolding uniform_uint64n
uniform_uint64n-Returns n [] pos h hs live = absurd live
uniform_uint64n-Returns n (x ∷ ws) pos h hs live = bounded_from-Returns n x ws pos h hs.0 hs.1 live

first_accepted-Gives :
    (G : ℕ → Type 0) (k n x : ℕ) (ws : List ℕ)
    → ((y : ℕ) → G y → Accepts n y)
    → 0 < n
    → IsU64 x
    → All IsU64 ws
    → Plenty G (suc k) (x ∷ ws)
    → Gives G k (λ r. r < n) (first_accepted n x ws)
unfolding first_accepted
first_accepted-Gives G k n x [] good pos hx hs live =
    elim (Bool-cases (leb (2 ^ 64 % n) (mul_lo x n))) [
      | inl e ↦ rw e (mul_hi-lt n x pos hx, tt, Plenty-past G k x [] live)
      | inr e ↦ elim live [ inl g ↦ let p = le→leb _ _ (good x g.0) in cc | inr b ↦ absurd b ]
    ]
first_accepted-Gives G k n x (w ∷ ws) good pos hx hs live =
    elim (Bool-cases (leb (2 ^ 64 % n) (mul_lo x n))) [
      | inl e ↦ rw e (mul_hi-lt n x pos hx, hs, Plenty-past G k x (w ∷ ws) live)
      | inr e ↦ rw e (
          first_accepted-Gives G k n w ws good pos hs.0 hs.1
            (elim live [ inl g ↦ let p = le→leb _ _ (good x g.0) in cc | inr b ↦ b ]))
    ]

-- The same where every good word is accepted: it takes one of them at most.
pub bounded_from-Gives :
    (G : ℕ → Type 0) (k n x : ℕ) (ws : List ℕ)
    → ((y : ℕ) → G y → Accepts n y)
    → 0 < n
    → n < 2 ^ 64
    → IsU64 x
    → All IsU64 ws
    → Plenty G (suc k) (x ∷ ws)
    → Gives G k (λ r. r < n) (bounded_from x n ws)
bounded_from-Gives G k n x ws good pos h hx hs live =
    rw (bounded_from-first_accepted n x ws pos h)
      (first_accepted-Gives G k n x ws good pos hx hs live)

first_accepted-Ensures :
    (n x : ℕ) (ws : List ℕ)
    → 0 < n
    → IsU64 x
    → All IsU64 ws
    → Ensures (λ r. r < n) (first_accepted n x ws)
unfolding first_accepted
first_accepted-Ensures n x [] pos hx hs = ground (arith, mul_hi-lt n x pos hx)
first_accepted-Ensures n x (w ∷ ws) pos hx hs =
    ground (arith, mul_hi-lt n x pos hx, first_accepted-Ensures n w ws pos hs.0 hs.1)

-- Whatever a bounded draw returns is below the bound.
pub bounded_from-Ensures :
    (n x : ℕ) (ws : List ℕ)
    → 0 < n
    → n < 2 ^ 64
    → IsU64 x
    → All IsU64 ws
    → Ensures (λ r. r < n) (bounded_from x n ws)
bounded_from-Ensures n x ws pos h hx hs =
    rw (bounded_from-first_accepted n x ws pos h) (first_accepted-Ensures n x ws pos hx hs)
