-- ===== src/Word/Alphabets.antt =====
-- Dictionaries without repeated symbols: a batch for every accepted word.
pub mod Table
use randomizer.Base.{
  ℕ, zero, suc, ◌-◌, ◌*◌, ◌^◌, ◌≤◌, ◌<◌, min, ◌≡◌, refl, inl, inr, false, Option, none, some, List,
  [], ◌∷◌, arith, ltb, le→ltb, Bool-cases, length, get_or, All, IsU64, Draw, bind_result, Returns,
  IsFound, Plenty, Gives, Plenty-past,
}
use randomizer.Number.{threshold, bounded_from}
use randomizer.Number.Accepts.{Accepts, threshold_lem, bounded_from-Gives}
use randomizer.Word.{
  Batch, draw_batch, rejected, fill_batches, fill_behind, new_batch_spec, fill_batched_no_repeat,
}
use randomizer.Word.Custom.Ends.{Ensures-Returns, bind-IsFound}
use randomizer.Word.NoRepeat.{IsAt, draw_batch-IsBatch, IsString, fill_batched-Ensures}
use randomizer.Word.Lives.Fill.{batch_bounds, prepend-IsFound}
use randomizer.Word.Digits.{RepeatFree, Drawn, draw_batch-Drawn}
use native.Mathlib.Nat.{suc-mul, one-le-pow, pow-le-pow_right}

-- The words that no batch of at most `batch` draws over `n1` candidates rejects.
abbrev pub Usable : ℕ → ℕ → ℕ → Type 0
Usable n1 batch w = (j : ℕ) → 1 ≤ j → j ≤ batch → Accepts (n1 ^ j) w

pub Drawn-kept :
    (n1 j w : ℕ) (b : Batch)
    → 0 < n1
    → n1 ^ j < 2 ^ 64
    → Drawn n1 j w 1 b
    → Accepts (n1 ^ j) w
    → rejected b ≡ false
Drawn-kept n1 j w b some_value fits d accepted =
    let power : b.prod ≡ n1 ^ j = omega (arith, d.power) in
    let reading = threshold_lem (n1 ^ j) (one-le-pow j n1 some_value) fits in
    let above : ltb b.lo (threshold b.prod) ≡ false =
      rw (power, reading, d.low_half) (le→ltb _ _ accepted) in
    rw above (ground arith)

module _ (dict : List ℕ) (several : 2 ≤ length dict) (few : length dict < 2 ^ 63)
    (free : RepeatFree dict) (batch : ℕ) (some_draw : 1 ≤ batch)
    (fits : (length dict - 1) ^ batch < 2 ^ 64) (G : ℕ → Type 0)
    (usable : (y : ℕ) → G y → Usable (length dict - 1) batch y) where
  drawn :
      (room w last last_idx : ℕ)
      → IsU64 w
      → IsAt dict last last_idx
      → Drawn
          (length dict - 1)
          (min batch room)
          w
          1
          (draw_batch dict (length dict - 1) batch room w 1 last last_idx)
  drawn room w last last_idx hw held =
      draw_batch-Drawn dict several few free batch room w 1 last last_idx hw (omega arith) held

  shorter : (j : ℕ) → j ≤ batch → (length dict - 1) ^ j < 2 ^ 64
  shorter j le =
      omega (arith, pow-le-pow_right {n = length dict - 1} (omega arith) {i = j} {j = batch} le)

  fill_batches-IsFound :
      (m room last last_idx : ℕ) (ws : List ℕ)
      → room ≤ m * batch
      → All IsU64 ws
      → Plenty G m ws
      → IsAt dict last last_idx
      → IsFound (fill_batches dict (length dict - 1) batch room last last_idx ws)
  unfolding fill_batches
  fill_batches-IsFound m zero last last_idx ws le hs live held = tt
  fill_batches-IsFound zero (suc room) last last_idx ws le hs live held = absurd (omega arith)
  fill_batches-IsFound (suc m) (suc room) last last_idx [] le hs live held = absurd live
  fill_batches-IsFound (suc m) (suc room) last last_idx (w ∷ ws) le hs live held =
      let n1 = length dict - 1 in
      let b = draw_batch dict n1 batch (suc room) w 1 last last_idx in
      let d = drawn (suc room) w last last_idx hs.0 held in
      let good = draw_batch-IsBatch dict several few batch (suc room) w 1 last last_idx hs.0 held in
      elim (Bool-cases (rejected b)) [
        | inl e ↦ rw e (
            fill_batches-IsFound (suc m) (suc room) last last_idx ws le hs.1
              (elim live [
                | inl g ↦
                    let p =
                      Drawn-kept n1 (min batch (suc room)) w b (omega arith)
                        (shorter (min batch (suc room)) (omega arith)) d
                        (usable w g.0 (min batch (suc room)) (omega arith) (omega arith)) in
                    cc
                | inr later ↦ later
              ])
              held)
        | inr e ↦ rw e (
            prepend-IsFound b.out _ (
              fill_batches-IsFound m (suc room - length b.out) b.last b.last_idx ws
                (omega (arith, d.wrote, suc-mul m batch)) hs.1 (Plenty-past G m w ws live) good.at))
      ]

Gives-IsFound :
    (G : ℕ → Type 0) (k : ℕ) (P : ℕ → Type 0) (r : Option (ℕ × List ℕ)) (f : ℕ → Draw (List ℕ))
    → Gives G k P r
    → ((a : ℕ) (ws : List ℕ) → P a → All IsU64 ws → Plenty G k ws → IsFound (f a ws))
    → IsFound (bind_result r f)
Gives-IsFound G k P none f h c = absurd h
Gives-IsFound G k P (some (a, ws)) f h c = c a ws h.0 h.1 h.2

-- The words that neither the first draw nor a batch over a dictionary of `n` symbols rejects.
abbrev pub Serviceable : ℕ → ℕ → Type 0
Serviceable n w = Accepts n w × Usable (n - 1) (new_batch_spec (n - 1)).k w

module _ (dict : List ℕ) (several : 2 ≤ length dict) (few : length dict < 2 ^ 63)
    (free : RepeatFree dict) where
  fill_behind-IsFound :
      (m : ℕ) (buffer : List ℕ) (i : ℕ) (ws : List ℕ)
      → length buffer ≤ m * (new_batch_spec (length dict - 1)).k
      → All IsU64 ws
      → Plenty (Serviceable (length dict)) m ws
      → i < length dict
      → IsFound (fill_behind buffer dict i ws)
  unfolding fill_behind
  fill_behind-IsFound m buffer i ws le hs live hi =
      let (some_draw, fits) = batch_bounds (length dict - 1) (omega arith) (omega arith) in
      rw (le→ltb _ _ several) (
        fill_batches-IsFound dict several few free (new_batch_spec (length dict - 1)).k some_draw
          fits (Serviceable (length dict)) (λ y g. g.1) m (length buffer) (get_or dict i 0) i ws le
          hs live (hi, refl))

  fill_batched-IsFound :
      (m : ℕ) (buffer ws : List ℕ)
      → length buffer ≤ suc (m * (new_batch_spec (length dict - 1)).k)
      → All IsU64 ws
      → Plenty (Serviceable (length dict)) (suc m) ws
      → IsFound (fill_batched_no_repeat buffer dict ws)
  unfolding fill_batched_no_repeat
  fill_batched-IsFound m [] ws le hs live = tt
  fill_batched-IsFound m (_ ∷ buffer) [] le hs live = absurd live
  fill_batched-IsFound m (_ ∷ buffer) (x ∷ ws) le hs live =
      Gives-IsFound (Serviceable (length dict)) m (λ i. i < length dict)
        (bounded_from x (length dict) ws) _
        (bounded_from-Gives (Serviceable (length dict)) m (length dict) x ws (λ y g. g.0)
          (omega arith) (omega arith) hs.0 hs.1 live)
        (λ i left hi hl more.
          bind-IsFound dict (omega arith) few i (fill_behind buffer dict i left)
            (fill_behind-IsFound m buffer i left (omega arith) hl more hi))

  pub fill_batched-Returns :
      (m : ℕ) (buffer ws : List ℕ)
      → length buffer ≤ suc (m * (new_batch_spec (length dict - 1)).k)
      → All IsU64 ws
      → Plenty (Serviceable (length dict)) (suc m) ws
      → Returns (IsString dict (length buffer)) (fill_batched_no_repeat buffer dict ws)
  fill_batched-Returns m buffer ws le hs live =
      Ensures-Returns (IsString dict (length buffer)) (fill_batched_no_repeat buffer dict ws)
        (fill_batched-Ensures buffer dict ws (omega arith) few (inr several) hs)
        (fill_batched-IsFound m buffer ws le hs live)
