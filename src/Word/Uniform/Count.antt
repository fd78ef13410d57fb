-- ===== src/Word/Uniform/Count.antt =====
-- The words that a batch turns into a string, counted.
use randomizer.Base.{
  ℕ, suc, ◌-◌, ◌*◌, ◌/◌, ◌%◌, ◌^◌, ◌≤◌, ◌<◌, min, ◌≡◌, ◌∙◌, ◌↔◌, inl, inr, Bool, true, false, ◌&&◌,
  none, some, List, [], ◌∷◌, arith, ltb, Bool-cases, length, IsU64, same_bytes, same_bytes-eq,
  same_bytes_self,
}
use randomizer.Number.{threshold}
use randomizer.Number.Accepts.{Accepts, threshold_lem}
use randomizer.Number.Uniform.{count_below, count_below_same, gives, gives_lem, count-gives}
use randomizer.Word.{Batch, draw_batch, rejected, fill_batches, new_batch_spec}
use randomizer.Word.NoRepeat.{Continues, IsAt}
use randomizer.Word.Digits.{RepeatFree, Drawn, draw_batch-Drawn}
use randomizer.Word.Alphabets.{Drawn-kept}
use randomizer.Word.Uniform.{rank, rank-lt, draw_batch-digits}
use randomizer.Word.Lives.Fill.{batch_bounds}
use native.Mathlib.Nat.{one-le-pow, pow-le-pow_right, mod-lt}
use mathlib.Core.List.{append-nil}

-- The word `w` alone fills the buffer with `out`.
pub writes : List ℕ → ℕ → ℕ → List ℕ → ℕ → Bool
writes dict last last_idx out w =
    elim (fill_batches dict (length dict - 1) (new_batch_spec (length dict - 1)).k (length out) last
      last_idx (w ∷ [])) [ none ↦ false | some r ↦ same_bytes r.0 out ]

Drawn-Accepts :
    (n1 j w : ℕ) (b : Batch)
    → 0 < n1
    → n1 ^ j < 2 ^ 64
    → Drawn n1 j w 1 b
    → rejected b ≡ false
    → Accepts (n1 ^ j) w
Drawn-Accepts n1 j w b some_value fits d kept =
    let power : b.prod ≡ n1 ^ j = omega (arith, d.power) in
    let pos = one-le-pow j n1 some_value in
    let reading : threshold b.prod ≡ 2 ^ 64 % n1 ^ j = rw power (threshold_lem (n1 ^ j) pos fits) in
    let t_lt : threshold b.prod < b.prod = omega (arith, mod-lt (2 ^ 64) pos) in
    omega (arith, not_low b.lo b.prod (threshold b.prod) t_lt kept, d.low_half)
  where
    not_low : (lo n t : ℕ) → t < n → (ltb lo n && ltb lo t) ≡ false → t ≤ lo
    not_low lo n t lt h = ground arith

module _ (dict : List ℕ) (several : 2 ≤ length dict) (few : length dict < 2 ^ 63)
    (free : RepeatFree dict) (last last_idx c : ℕ) (cs : List ℕ) (held : IsAt dict last last_idx)
    (fits_in : suc (length cs) ≤ (new_batch_spec (length dict - 1)).k)
    (next : Continues dict last (suc (length cs)) (c ∷ cs)) where
  small : (length dict - 1) ^ suc (length cs) < 2 ^ 64
  small = omega (
    arith,
    (batch_bounds (length dict - 1) (omega arith) (omega arith)).1,
    pow-le-pow_right {n = length dict - 1} (omega arith) {i = suc (length cs)}
        {j = (new_batch_spec (length dict - 1)).k} fits_in,
  )

  writes_iff :
      (w : ℕ)
      → IsU64 w
      → (writes dict last last_idx (c ∷ cs) w ≡ true)
        ↔ (gives ((length dict - 1) ^ suc (length cs)) (rank dict last_idx (c ∷ cs)) w ≡ true)
  unfolding writes fill_batches
  writes_iff w hw =
      let n1 = length dict - 1 in
      let k = (new_batch_spec n1).k in
      let room = suc (length cs) in
      let b = draw_batch dict n1 k room w 1 last last_idx in
      let fits : 1 * n1 ^ k < 2 ^ 64 =
        omega (arith, (batch_bounds n1 (omega arith) (omega arith)).1) in
      let all : min k room ≡ room = omega arith in
      let d : Drawn n1 room w 1 b =
        rw all at (draw_batch-Drawn dict several few free k room w 1 last last_idx hw fits held) in
      let left : room - length b.out ≡ 0 = omega (arith, d.wrote) in
      let digits =
        draw_batch-digits dict several few free (c ∷ cs) k w 1 last last_idx fits_in hw fits held
          next.1 next.2 in
      let given =
        gives_lem (n1 ^ room) (rank dict last_idx (c ∷ cs)) (one-le-pow room n1 (omega arith)) small
          (rank-lt dict several few free (c ∷ cs) last last_idx held next.1 next.2) w in
      elim (Bool-cases (rejected b)) [
        | inl e ↦
            rw (e, writes)
              (
                λ h. cc,
                λ g. let p = Drawn-kept n1 room w b (omega arith) small d (given.0 g).0 in cc,
              )
        | inr e ↦
            rw (e, left, append-nil b.out, writes)
              (
                λ h. given.1 (
                  Drawn-Accepts n1 room w b (omega arith) small d e,
                  digits.0 (same_bytes-eq b.out (c ∷ cs) h),
                ),
                λ g. rw (digits.1 (given.0 g).1) (same_bytes_self (c ∷ cs)),
              )
      ]

-- For a dictionary without repeated symbols, of at least 2 and fewer than 2 ^ 63, and a last symbol
-- that stands in it, each string of symbols that may follow it without equal neighbours, at least
-- one and no more than a batch holds, is written by exactly 2 ^ 64 / (n - 1) ^ l (rounded down) of
-- the 2 ^ 64 words, where n is the dictionary's length and l the string's: strings of one length
-- are equally likely.
pub count-writes :
    (dict : List ℕ) (last last_idx : ℕ) (out : List ℕ)
    → 2 ≤ length dict
    → length dict < 2 ^ 63
    → RepeatFree dict
    → IsAt dict last last_idx
    → 1 ≤ length out
    → length out ≤ (new_batch_spec (length dict - 1)).k
    → Continues dict last (length out) out
    → count_below (2 ^ 64) (writes dict last last_idx out) ≡ 2 ^ 64 / (length dict - 1) ^ length out
count-writes dict last last_idx [] several few free held some_symbol fits_in next =
    absurd (omega arith)
count-writes dict last last_idx (c ∷ cs) several few free held some_symbol fits_in next =
    let n1 = length dict - 1 in
    let room = suc (length cs) in
    count_below_same (2 ^ 64) (writes dict last last_idx (c ∷ cs))
      (gives (n1 ^ room) (rank dict last_idx (c ∷ cs)))
      (λ w hw. writes_iff dict several few free last last_idx c cs held fits_in next w hw)
    ∙ count-gives (n1 ^ room) (rank dict last_idx (c ∷ cs)) (one-le-pow room n1 (omega arith))
        (small dict several few free last last_idx c cs held fits_in next)
        (rank-lt dict several few free (c ∷ cs) last last_idx held next.1 next.2)
