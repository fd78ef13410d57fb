-- ===== src/Word/Uniform.antt =====
-- Uniformity of a batch: every string that may stand behind the last symbol has equally many words.
pub mod Count
use randomizer.Base.{
  ℕ, zero, suc, ◌+◌, ◌-◌, ◌*◌, ◌^◌, ◌≤◌, ◌<◌, ◌≡◌, refl, sym, ap, ◌∙◌, ◌≢◌, ◌↔◌, inl, inr, List, [],
  ◌∷◌, arith, ◌==◌, if◌then◌else◌, ==_iff, Bool-cases, length, get_or, drop, All, u64, IsU64,
}
use randomizer.Number.{mul_hi, mul_lo}
use randomizer.Number.Accepts.{mul_hi-lt}
use randomizer.Number.Uniform.{mul_cancel, mul_mono}
use randomizer.Word.{draw_batch}
use randomizer.Word.Skip.{position, candidate, skip_past_bijection}
use randomizer.Word.NoRepeat.{InDict, Alternates, IsAt}
use randomizer.Word.Lives.{power_step}
use randomizer.Word.Digits.{RepeatFree, next_position, mul_halves, pow_suc_left}
use mathlib.Core.Path.{ap₂}
use native.Mathlib.Nat.{pow-zero, one-le-pow, add-mul}

-- The first position that holds a symbol.
index : List ℕ → ℕ → ℕ
index [] c = 0
index (d ∷ ds) c = if d == c then 0 else suc (index ds c)

index_lem :
    (dict : List ℕ) (c i : ℕ)
    → i < length dict
    → c ≡ get_or dict i 0
    → (index dict c < length dict) × (c ≡ get_or dict (index dict c) 0)
unfolding index
index_lem [] c i lt e = absurd (omega arith)
index_lem (d ∷ ds) c zero lt e = rw ((==_iff d c).1 (sym e)) (omega arith, e)
index_lem (d ∷ ds) c (suc i) lt e = elim (Bool-cases (d == c)) [
  | inl same ↦ rw same (omega arith, sym ((==_iff d c).0 same))
  | inr other ↦ let (below, at) = index_lem ds c i (omega arith) e in rw other (omega arith, at)
]

-- The number whose digits, to the base of the candidates, are the candidates of a string's symbols.
pub rank : List ℕ → ℕ → List ℕ → ℕ
rank dict last_idx [] = 0
rank dict last_idx (c ∷ cs) =
    candidate last_idx (index dict c) * (length dict - 1) ^ length cs + rank dict (index dict c) cs

digit_unique : (h k t s n : ℕ) → t < n → s < n → h * n + t ≡ k * n + s → (h ≡ k) × (t ≡ s)
digit_unique h k t s n ht hs e =
    let up = mul_cancel h (k + 1) n (omega (arith, add-mul k 1 n)) in
    let down = mul_cancel k (h + 1) n (omega (arith, add-mul h 1 n)) in
    let same : h ≡ k = omega arith in (same, omega (arith, ap (λ x. x * n) same))

digit_fits : (h b t n : ℕ) → h < b → t < n → h * n + t < b * n
digit_fits h b t n lt below = omega (arith, mul_mono (h + 1) b n (omega arith), add-mul h 1 n)

module _ (dict : List ℕ) (several : 2 ≤ length dict) (few : length dict < 2 ^ 63)
    (free : RepeatFree dict) where
  candidate-lt :
      (last last_idx c : ℕ)
      → IsAt dict last last_idx
      → InDict dict c
      → c ≢ last
      → IsAt dict c (index dict c)
        × (candidate last_idx (index dict c) < length dict - 1)
        × (position last_idx (candidate last_idx (index dict c)) ≡ index dict c)
  candidate-lt last last_idx c held (i, lt, e) ne =
      let (below, at) = index_lem dict c i lt e in
      let (inside, back) =
        (skip_past_bijection (length dict) last_idx few held.0).1 (index dict c) below
          (λ q. ne (at ∙ ap (λ k. get_or dict k 0) q ∙ sym held.1)) in
      ((below, at), inside, back)

  pub rank-lt :
      (out : List ℕ) (last last_idx : ℕ)
      → IsAt dict last last_idx
      → All (InDict dict) out
      → Alternates last out
      → rank dict last_idx out < (length dict - 1) ^ length out
  unfolding rank
  rank-lt [] last last_idx held ok alt = one-le-pow 0 (length dict - 1) (omega arith)
  rank-lt (c ∷ cs) last last_idx held ok alt =
      let (at, inside, _) = candidate-lt last last_idx c held ok.0 alt.0 in
      rw (pow_suc_left (length dict - 1) (length cs)) (
        digit_fits (candidate last_idx (index dict c)) (length dict - 1)
          (rank dict (index dict c) cs) ((length dict - 1) ^ length cs) inside
          (rank-lt cs c (index dict c) at ok.1 alt.1))

  -- A batch writes a string exactly where the word's digits are the string's candidates.
  pub draw_batch-digits :
      (out : List ℕ) (draws lo prod last last_idx : ℕ)
      → length out ≤ draws
      → IsU64 lo
      → prod * (length dict - 1) ^ draws < 2 ^ 64
      → IsAt dict last last_idx
      → All (InDict dict) out
      → Alternates last out
      → ((draw_batch dict (length dict - 1) draws (length out) lo prod last last_idx).out ≡ out)
        ↔ (mul_hi lo ((length dict - 1) ^ length out) ≡ rank dict last_idx out)
  unfolding draw_batch rank
  draw_batch-digits [] zero lo prod last last_idx le hl fits held ok alt =
      (λ e. rw (pow-zero (length dict - 1)) (omega arith), λ e. refl)
  draw_batch-digits [] (suc draws) lo prod last last_idx le hl fits held ok alt =
      (λ e. rw (pow-zero (length dict - 1)) (omega arith), λ e. refl)
  draw_batch-digits (c ∷ cs) zero lo prod last last_idx le hl fits held ok alt =
      absurd (omega arith)
  draw_batch-digits (c ∷ cs) (suc draws) lo prod last last_idx le hl fits held ok alt =
      let n1 = length dict - 1 in
      let (later, now, _) = power_step prod n1 draws (omega arith) fits in
      let same : u64 (prod * n1) ≡ prod * n1 = omega arith in
      let (below, other) = next_position dict several few free lo last last_idx hl held in
      let h = mul_hi lo n1 in
      let p = position last_idx h in
      let (at, inside, back) = candidate-lt last last_idx c held ok.0 alt.0 in
      let ih =
        draw_batch-digits cs draws (mul_lo lo n1) (prod * n1) c (index dict c) (omega arith)
          (omega arith) later at ok.1 alt.1 in
      let halves = (mul_halves lo n1 (n1 ^ length cs)).0 in
      let N = n1 ^ length cs in
      let some_word : 0 < N = one-le-pow (length cs) n1 (omega arith) in
      let rest =
        λ (a q : ℕ). (draw_batch dict n1 draws (length cs) (mul_lo lo n1) (prod * n1) a q).out in
      let (_, _, undone) =
        (skip_past_bijection (length dict) last_idx few held.0).0 h
          (mul_hi-lt n1 lo (omega arith) hl) in
      rw (other, same, pow_suc_left n1 (length cs), halves)
        (
          λ e.
              let head : get_or dict p 0 ≡ c = ap (λ l. get_or {A = ℕ} l 0 0) e in
              let place : p ≡ index dict c = free p (index dict c) below at.0 (head ∙ at.1) in
              let tail : rest (get_or dict p 0) p ≡ cs = ap (drop {A = ℕ} 1) e in
              let digit : h ≡ candidate last_idx (index dict c) =
                sym undone ∙ ap (candidate last_idx) place in
              omega (arith, ap (λ x. x * N) digit, ih.0 (sym (ap₂ rest head place) ∙ tail)),
          λ e.
              let (digit, low) =
                digit_unique h (candidate last_idx (index dict c)) (mul_hi (mul_lo lo n1) N)
                  (rank dict (index dict c) cs) N
                  (mul_hi-lt N (mul_lo lo n1) some_word (omega arith))
                  (rank-lt cs c (index dict c) at ok.1 alt.1) e in
              let place : p ≡ index dict c = ap (position last_idx) digit ∙ back in
              let head : get_or dict p 0 ≡ c = ap (λ k. get_or dict k 0) place ∙ sym at.1 in
              ap₂ ◌∷◌ head (ap₂ rest head place ∙ ih.1 low),
        )
