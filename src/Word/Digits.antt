-- ===== src/Word/Digits.antt =====
-- A batch over a dictionary without repeated symbols: every draw is written.
use randomizer.Base.{
  ℕ, zero, suc, ◌+◌, ◌-◌, ◌*◌, ◌^◌, ◌≤◌, ◌<◌, min, ◌≡◌, refl, sym, ap, ◌∙◌, ◌≢◌, false, List, [],
  arith, ◌==◌, length, get_or, u64, IsU64,
}
use randomizer.Number.{mul_hi, mul_lo}
use randomizer.Number.Accepts.{mul_hi-lt}
use randomizer.Word.{Batch, write, draw_batch}
use randomizer.Word.Skip.{position, skip_past_bijection}
use randomizer.Word.NoRepeat.{IsAt}
use randomizer.Word.Lives.{power_step}
use native.Mathlib.Nat.{
  pow-zero, pow-suc, mul_assoc, mul_comm, mul_right_comm, add-mul, div-add-mod',
}

-- Different positions hold different symbols.
abbrev pub RepeatFree : List ℕ → Type 0
RepeatFree dict =
    (i j : ℕ) → i < length dict → j < length dict → get_or dict i 0 ≡ get_or dict j 0 → i ≡ j

-- The halves of a product with `n * p`, from those with `n`.
pub mul_halves :
    (lo n p : ℕ)
    → (mul_hi lo (n * p) ≡ mul_hi lo n * p + mul_hi (mul_lo lo n) p)
      × (mul_lo lo (n * p) ≡ mul_lo (mul_lo lo n) p)
mul_halves lo n p =
    let total : lo * (n * p) ≡ mul_hi lo n * p * 2 ^ 64 + mul_lo lo n * p =
      sym (mul_assoc lo n p)
      ∙ ap (λ t. t * p) (sym (div-add-mod' (lo * n) (2 ^ 64)))
      ∙ add-mul (mul_hi lo n * 2 ^ 64) (mul_lo lo n) p
      ∙ ap (λ t. t + mul_lo lo n * p) (mul_right_comm (mul_hi lo n) (2 ^ 64) p) in
    (omega (arith, total), omega (arith, total))

-- What `m` draws at `lo` and `prod` leave, all of them written.
pub record Drawn (n1 m lo prod : ℕ) (b : Batch) : Type 0 where
  pub wrote : length b.out ≡ m
  pub low_half : b.lo ≡ mul_lo lo (n1 ^ m)
  pub power : b.prod ≡ prod * n1 ^ m

no_draw-Drawn :
    (n1 lo prod last last_idx : ℕ)
    → IsU64 lo
    → Drawn n1 0 lo prod
        (record { out = []; lo = lo; prod = prod; last = last; last_idx = last_idx })
no_draw-Drawn n1 lo prod last last_idx hl = record {
  wrote = refl;
  low_half = rw (pow-zero n1) (omega arith);
  power = rw (pow-zero n1) (omega arith);
}

pub pow_suc_left : (n m : ℕ) → n ^ suc m ≡ n * n ^ m
pow_suc_left n m = pow-suc n m ∙ mul_comm (n ^ m) n

one_more :
    (n1 m lo prod c : ℕ) (b : Batch)
    → Drawn n1 m (mul_lo lo n1) (prod * n1) b
    → Drawn n1 (suc m) lo prod (write c b)
one_more n1 m lo prod c b d = record {
  wrote = ap suc d.wrote;
  low_half =
      d.low_half ∙ sym (mul_halves lo n1 (n1 ^ m)).1 ∙ ap (mul_lo lo) (sym (pow_suc_left n1 m));
  power = d.power ∙ mul_assoc prod n1 (n1 ^ m) ∙ ap (λ t. prod * t) (sym (pow_suc_left n1 m));
}

module _ (dict : List ℕ) (several : 2 ≤ length dict) (few : length dict < 2 ^ 63)
    (free : RepeatFree dict) where
  -- The position of the next symbol differs from the last one, and so do the symbols.
  pub next_position :
      (lo last last_idx : ℕ)
      → IsU64 lo
      → IsAt dict last last_idx
      → (position last_idx (mul_hi lo (length dict - 1)) < length dict)
        × ((get_or dict (position last_idx (mul_hi lo (length dict - 1))) 0 == last) ≡ false)
  next_position lo last last_idx hl held =
      let h = mul_hi lo (length dict - 1) in
      let (below, other, _) =
        (skip_past_bijection (length dict) last_idx few held.0).0 h
          (mul_hi-lt (length dict - 1) lo (omega arith) hl) in
      let ne : get_or dict (position last_idx h) 0 ≢ last =
        λ q. other (free (position last_idx h) last_idx below held.0 (q ∙ held.1)) in
      (below, ground arith)

  pub draw_batch-Drawn :
      (draws room lo prod last last_idx : ℕ)
      → IsU64 lo
      → prod * (length dict - 1) ^ draws < 2 ^ 64
      → IsAt dict last last_idx
      → Drawn
          (length dict - 1)
          (min draws room)
          lo
          prod
          (draw_batch dict (length dict - 1) draws room lo prod last last_idx)
  unfolding draw_batch
  draw_batch-Drawn zero room lo prod last last_idx hl fits held =
      let empty : min 0 room ≡ 0 = omega arith in
      rw empty (no_draw-Drawn (length dict - 1) lo prod last last_idx hl)
  draw_batch-Drawn (suc draws) zero lo prod last last_idx hl fits held =
      let empty : min (suc draws) 0 ≡ 0 = omega arith in
      rw empty (no_draw-Drawn (length dict - 1) lo prod last last_idx hl)
  draw_batch-Drawn (suc draws) (suc room) lo prod last last_idx hl fits held =
      let n1 = length dict - 1 in
      let idx = position last_idx (mul_hi lo n1) in
      let c = get_or dict idx 0 in
      let (below, other) = next_position lo last last_idx hl held in
      let (later, now, _) = power_step prod n1 draws (omega arith) fits in
      let same : u64 (prod * n1) ≡ prod * n1 = omega arith in
      let both : min (suc draws) (suc room) ≡ suc (min draws room) = omega arith in
      rw (other, same, both)
        (one_more n1 (min draws room) lo prod c
          (draw_batch dict n1 draws room (mul_lo lo n1) (prod * n1) c idx)
          (draw_batch-Drawn draws room (mul_lo lo n1) (prod * n1) c idx (omega arith) later
            (below, refl)))
