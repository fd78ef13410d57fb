-- ===== src/Word/Lives.antt =====
-- Words on which the loops of word.go end, from every state that they reach.
pub mod Fill
use randomizer.Base.{
  ℕ, zero, suc, ◌+◌, ◌-◌, ◌*◌, ◌/◌, ◌%◌, ◌^◌, ◌≤◌, ◌<◌, ◌≡◌, refl, sym, ap, ◌∙◌, inl, inr, true,
  false, some, List, [], ◌∷◌, arith, ltb, leb, ◌==◌, le→ltb, le→leb, Bool-cases, get_or, u64, IsU64,
}
use randomizer.Number.{mul_hi, mul_lo, threshold, bounded_from}
use randomizer.Number.Accepts.{threshold_lem, first_accepted, bounded_from-first_accepted}
use randomizer.Number.Uniform.{mul_cancel, mul_mono}
use randomizer.Word.{Batch, draw_batch, rejected}
use randomizer.Word.Skip.{position}
use native.Mathlib.Nat.{
  pow-zero, pow-suc, one-le-pow, mod-lt, mod-le, mod-eq-sub-mod, div-add-mod', mul_assoc, mul_comm,
  mul-le-mul_left, add-mul,
}

-- The last word whose product with `n` lies in the block `h`.
abbrev pub last_word : ℕ → ℕ → ℕ
last_word n h = ((h + 1) * 2 ^ 64 - 1) / n

mod_le_complement : (p : ℕ) → 0 < p → p < 2 ^ 64 → 2 ^ 64 % p + p ≤ 2 ^ 64
mod_le_complement p pos lt =
    omega (arith, mod-eq-sub-mod {n = 2 ^ 64} {m = p} (omega arith), mod-le (2 ^ 64 - p) p)

module _ (n h : ℕ) (some_value : 0 < n) (small : n < 2 ^ 64) (below : h < n) where
  pub last_word_lem :
      IsU64 (last_word n h)
      × (mul_hi (last_word n h) n ≡ h)
      × (2 ^ 64 ≤ mul_lo (last_word n h) n + n)
  last_word_lem =
      let d = div-add-mod' ((h + 1) * 2 ^ 64 - 1) n in
      let m = mod-lt ((h + 1) * 2 ^ 64 - 1) some_value in
      (mul_cancel (last_word n h) (2 ^ 64) n (omega arith), omega arith, omega arith)

  -- Such a word is accepted.
  pub bounded_from-last_word : (ws : List ℕ) → bounded_from (last_word n h) n ws ≡ some (h, ws)
  unfolding first_accepted
  bounded_from-last_word ws =
      rw (bounded_from-first_accepted n (last_word n h) ws some_value small) (
        first_accepted_lem ws
          (le→leb _ _ (omega (arith, mod_le_complement n some_value small, last_word_lem)))
          last_word_lem.1)
    where
      first_accepted_lem :
          (ws : List ℕ)
          → leb (2 ^ 64 % n) (mul_lo (last_word n h) n) ≡ true
          → mul_hi (last_word n h) n ≡ h
          → first_accepted n (last_word n h) ws ≡ some (h, ws)
      first_accepted_lem [] e same = rw (e, same) refl
      first_accepted_lem (w ∷ ws) e same = rw (e, same) refl

-- A low half that is short of 2 ^ 64 by the product at most stays so.
high_step :
    (lo prod n : ℕ)
    → 0 < n
    → lo < 2 ^ 64
    → prod * n < 2 ^ 64
    → 2 ^ 64 ≤ lo + prod
    → 2 ^ 64 ≤ mul_lo lo n + prod * n
high_step lo prod n some_value small fits high =
    let short = 2 ^ 64 - lo in
    let le = mul_mono short prod n (omega arith) in
    let pos = mul_mono 1 short n (omega arith) in
    let total : lo + short ≡ 2 ^ 64 = omega arith in
    omega (arith, sym (add-mul lo short n), ap (λ t. t * n) total)

-- One factor more, of a product that stays below 2 ^ 64.
pub power_step :
    (prod n d : ℕ)
    → 0 < n
    → prod * n ^ suc d < 2 ^ 64
    → (prod * n * n ^ d < 2 ^ 64) × (prod * n < 2 ^ 64) × (prod < 2 ^ 64)
power_step prod n d some_value fits =
    let split =
      ap (λ t. prod * t) (pow-suc n d ∙ mul_comm (n ^ d) n) ∙ sym (mul_assoc prod n (n ^ d)) in
    let one = mul-le-mul_left (prod * n) (one-le-pow d n some_value) in
    let two = mul-le-mul_left prod some_value in (omega arith, omega arith, omega arith)

record IsHigh (b : Batch) : Type 0 where
  short : 2 ^ 64 ≤ b.lo + b.prod
  lo_fits : b.lo < 2 ^ 64
  prod_fits : b.prod < 2 ^ 64
  positive : 0 < b.prod

draw_batch-IsHigh :
    (dict : List ℕ) (n1 draws room lo prod last last_idx : ℕ)
    → 0 < n1
    → lo < 2 ^ 64
    → 0 < prod
    → prod * n1 ^ draws < 2 ^ 64
    → 2 ^ 64 ≤ lo + prod
    → IsHigh (draw_batch dict n1 draws room lo prod last last_idx)
unfolding draw_batch
draw_batch-IsHigh dict n1 zero room lo prod last last_idx some_value small pos fits high = record {
  short = high;
  lo_fits = small;
  prod_fits = omega (arith, ap (λ t. prod * t) (pow-zero n1));
  positive = pos;
}
draw_batch-IsHigh dict n1 (suc draws) zero lo prod last last_idx some_value small pos fits high =
    record {
      short = high;
      lo_fits = small;
      prod_fits = (power_step prod n1 draws some_value fits).2;
      positive = pos;
    }
draw_batch-IsHigh dict n1 (suc draws) (suc room) lo prod last last_idx some_value small pos fits
      high =
    let step = power_step prod n1 draws some_value fits in
    let idx = position last_idx (mul_hi lo n1) in
    let c = get_or dict idx 0 in
    let same : u64 (prod * n1) ≡ prod * n1 = omega (arith, step.1) in
    let low : mul_lo lo n1 < 2 ^ 64 = omega arith in
    let more : 0 < prod * n1 = grind arith in
    let high' = high_step lo prod n1 some_value small step.1 high in
    elim (Bool-cases (c == last)) [
      | inl e ↦
          rw (e, same)
            (draw_batch-IsHigh dict n1 draws (suc room) (mul_lo lo n1) (prod * n1) last last_idx
              some_value low more step.0 high')
      | inr e ↦
          let next =
            draw_batch-IsHigh dict n1 draws room (mul_lo lo n1) (prod * n1) c idx some_value low
              more step.0 high' in
          rw (e, same)
            (record {
              short = next.short;
              lo_fits = next.lo_fits;
              prod_fits = next.prod_fits;
              positive = next.positive;
            })
    ]

IsHigh-kept : (b : Batch) → IsHigh b → rejected b ≡ false
IsHigh-kept b high =
    let above : ltb b.lo (threshold b.prod) ≡ false = le→ltb _ _ (
      omega (
        arith,
        threshold_lem b.prod high.positive high.prod_fits,
        mod_le_complement b.prod high.positive high.prod_fits,
      )) in
    rw above (ground arith)
