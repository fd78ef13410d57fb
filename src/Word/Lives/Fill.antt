-- ===== src/Word/Lives/Fill.antt =====
-- Words on which a whole buffer is filled, for every dictionary with two different symbols.
use randomizer.Base.{
  ℕ, zero, suc, ◌-◌, ◌*◌, ◌^◌, ◌≤◌, ◌<◌, ◌≡◌, refl, sym, ap, ◌∙◌, ◌≢◌, inl, inr, false, Option,
  none, some, List, [], ◌∷◌, arith, ltb, leb, ◌==◌, ltb→le, le→ltb, leb→le, ==_iff, Bool-cases,
  length, get_or, All, u64, IsU64, IsFound,
}
use randomizer.Number.{mul_lo}
use randomizer.Word.{draw_batch, rejected, prepend, fill_batches, fill_behind, new_batch_spec}
use randomizer.Word.Custom.{wide_rounds}
use randomizer.Word.Skip.{position, candidate, skip_past_bijection}
use randomizer.Word.NoRepeat.{IsAt, draw_batch-IsBatch}
use randomizer.Word.Spec.{new_batch_spec-IsLongest}
use randomizer.Word.Lives.{
  last_word, last_word_lem, bounded_from-last_word, IsHigh, draw_batch-IsHigh, IsHigh-kept,
}
use native.Mathlib.Nat.{pow-suc, mul_comm}

-- Two positions with different symbols.
abbrev pub Varied : List ℕ → Type 0
Varied dict =
    (i : ℕ) × (j : ℕ) × (i < length dict) × (j < length dict) × (get_or dict i 0 ≢ get_or dict j 0)

-- Words of 64 bits on which a computation returns.
abbrev pub Ends {ℓ} : {A : Type ℓ} → (List ℕ → Option A) → Type 0
Ends f = (ws : List ℕ) × All IsU64 ws × IsFound (f ws)

pub prepend-IsFound :
    (out : List ℕ) (r : Option (List ℕ × List ℕ)) → IsFound r → IsFound (prepend out r)
prepend-IsFound out none h = h
prepend-IsFound out (some r) h = tt

of_one : (1 ≤ (new_batch_spec 1).k) × (1 ^ (new_batch_spec 1).k < 2 ^ 64)
unfolding new_batch_spec
of_one = omega arith

pub batch_bounds :
    (n : ℕ) → 1 ≤ n → n < 2 ^ 64 → (1 ≤ (new_batch_spec n).k) × (n ^ (new_batch_spec n).k < 2 ^ 64)
batch_bounds n some_value small = elim (Bool-cases (ltb n 2)) [
  | inl e ↦ let one : n ≡ 1 = ground arith in rw one (of_one)
  | inr e ↦
      let (power, from, _, _) = new_batch_spec-IsLongest n (ltb→le _ _ e) small in
      (from, rw (← power.0) power.1)
]

module _ (dict : List ℕ) (varied : Varied dict) (few : length dict < 2 ^ 63) where
  pub several : 2 ≤ length dict
  several = elim (Bool-cases (leb 2 (length dict))) [
    | inl e ↦ leb→le _ _ e
    | inr e ↦
        let same : varied.0 ≡ varied.1 = ground (arith, varied.2, varied.3) in
        absurd (varied.4 (ap (λ i. get_or dict i 0) same))
  ]

  other_position : (last : ℕ) → (i : ℕ) × (i < length dict) × (get_or dict i 0 ≢ last)
  other_position last = elim (Bool-cases (get_or dict varied.0 0 == last)) [
    | inl e ↦
        (varied.1, varied.3, λ q. varied.4 ((==_iff (get_or dict varied.0 0) last).0 e ∙ sym q))
    | inr e ↦ (varied.0, varied.2, ground arith)
  ]

  -- A candidate whose position holds another symbol than the last one.
  next_candidate :
      (last last_idx : ℕ)
      → IsAt dict last last_idx
      → (h : ℕ) × (h < length dict - 1)
        × (position last_idx h < length dict)
        × (get_or dict (position last_idx h) 0 ≢ last)
  next_candidate last last_idx held =
      let (i, hi, ne) = other_position last in
      let (lt, back) =
        (skip_past_bijection (length dict) last_idx few held.0).1 i hi
          (λ q. ne (ap (λ k. get_or dict k 0) q ∙ sym held.1)) in
      (candidate last_idx i, lt, rw back hi, rw back ne)

  draw_some :
      (batch room last last_idx : ℕ)
      → 1 ≤ batch
      → (length dict - 1) ^ batch < 2 ^ 64
      → IsAt dict last last_idx
      → (w : ℕ) × IsU64 w
        × (rejected (draw_batch dict (length dict - 1) batch (suc room) w 1 last last_idx) ≡ false)
        × (0 < length (draw_batch dict (length dict - 1) batch (suc room) w 1 last last_idx).out)
  unfolding draw_batch
  draw_some zero room last last_idx some_draw fits held = absurd (omega arith)
  draw_some (suc batch) room last last_idx some_draw fits held =
      let n1 = length dict - 1 in
      let (h, lt, at, ne) = next_candidate last last_idx held in
      let w = last_word n1 h in
      let small : n1 < 2 ^ 64 = omega arith in
      let (hw, hi, high) = last_word_lem n1 h (omega (arith, several)) small lt in
      let idx = position last_idx h in
      let other : (get_or dict idx 0 == last) ≡ false = ground arith in
      let start : u64 (1 * n1) ≡ n1 = omega arith in
      let fits' : n1 * n1 ^ batch < 2 ^ 64 =
        omega (arith, pow-suc n1 batch, mul_comm (n1 ^ batch) n1) in
      let rest = draw_batch dict n1 batch room (mul_lo w n1) n1 (get_or dict idx 0) idx in
      let good : IsHigh rest =
        draw_batch-IsHigh dict n1 batch room (mul_lo w n1) n1 (get_or dict idx 0) idx
          (omega (arith, several)) (omega arith) (omega (arith, several)) fits' high in
      (w, hw, rw (hi, other, start) (IsHigh-kept rest good), rw (hi, other) (omega arith))

  fill_batches-Ends :
      (batch fuel room last last_idx : ℕ)
      → room ≤ fuel
      → 1 ≤ batch
      → (length dict - 1) ^ batch < 2 ^ 64
      → IsAt dict last last_idx
      → Ends (fill_batches dict (length dict - 1) batch room last last_idx)
  unfolding fill_batches
  fill_batches-Ends batch fuel zero last last_idx le some_draw fits held = ([], tt, tt)
  fill_batches-Ends batch zero (suc room) last last_idx le some_draw fits held =
      absurd (omega arith)
  fill_batches-Ends batch (suc fuel) (suc room) last last_idx le some_draw fits held =
      let (w, hw, kept, wrote) = draw_some batch room last last_idx some_draw fits held in
      let b = draw_batch dict (length dict - 1) batch (suc room) w 1 last last_idx in
      let good = draw_batch-IsBatch dict several few batch (suc room) w 1 last last_idx hw held in
      let (ws, hs, ends) =
        fill_batches-Ends batch fuel (suc room - length b.out) b.last b.last_idx (omega arith)
          some_draw fits good.at in
      (w ∷ ws, (hw, hs), rw kept (prepend-IsFound b.out _ ends))

  pub fill_behind-Ends :
      (buffer : List ℕ) (i : ℕ) → i < length dict → Ends (fill_behind buffer dict i)
  unfolding fill_behind
  fill_behind-Ends buffer i hi =
      let n1 = length dict - 1 in
      let (some_draw, fits) = batch_bounds n1 (omega (arith, several)) (omega arith) in
      rw (le→ltb _ _ several) (
        fill_batches-Ends (new_batch_spec n1).k (length buffer) (length buffer) (get_or dict i 0) i
          (omega arith) some_draw fits (hi, refl))

  pub wide_rounds-Ends :
      (room last last_idx : ℕ)
      → IsAt dict last last_idx
      → (ws : List ℕ) × All IsU64 ws × IsFound (wide_rounds (length ws) dict room last last_idx ws)
  unfolding wide_rounds
  wide_rounds-Ends zero last last_idx held = ([], tt, tt)
  wide_rounds-Ends (suc room) last last_idx held =
      let n1 = length dict - 1 in
      let (h, lt, at, ne) = next_candidate last last_idx held in
      let small : n1 < 2 ^ 64 = omega arith in
      let some_value : 0 < n1 = omega (arith, several) in
      let idx = position last_idx h in
      let other : (get_or dict idx 0 == last) ≡ false = ground arith in
      let (ws, hs, ends) = wide_rounds-Ends room (get_or dict idx 0) idx (at, refl) in
      let taken = bounded_from-last_word n1 h some_value small lt ws in
      (
        last_word n1 h ∷ ws,
        ((last_word_lem n1 h some_value small lt).0, hs),
        rw (taken, other) (prepend-IsFound (get_or dict idx 0 ∷ []) _ ends),
      )
