-- ===== src/Word/NoRepeat.antt =====
-- Strings of a dictionary without equal neighbours, and that the code writes nothing else.
use randomizer.Base.{
  ℕ, zero, suc, ◌-◌, ◌*◌, ◌^◌, ◌≤◌, ◌<◌, ◌≡◌, refl, ap, ◌≢◌, ◌⊎◌, inl, inr, Option, none, some,
  List, [], ◌∷◌, ◌++◌, arith, ltb, ◌==◌, ltb→lt, ltb→le, Bool-cases, length, get_or, length-append,
  All, All-append, u64, IsU64, Ensures, Ensures-bind,
}
use randomizer.Number.{mul_hi, mul_lo, bounded_from}
use randomizer.Number.Accepts.{mul_hi-lt, bounded_from-Ensures}
use randomizer.Word.{
  Batch, draw_batch, rejected, prepend, fill_batches, fill_behind, new_batch_spec,
  fill_batched_no_repeat,
}
use randomizer.Word.Skip.{position, position_lem}

abbrev pub InDict : List ℕ → ℕ → Type 0
InDict dict c = (i : ℕ) × (i < length dict) × (c ≡ get_or dict i 0)

-- No symbol equals the one before it; `last` stands before the first.
abbrev pub Alternates : ℕ → List ℕ → Type 0
Alternates last [] = Unit {0}
Alternates last (c ∷ cs) = (c ≢ last) × Alternates c cs

-- What may stand behind `last`: `n` symbols of the dictionary.
abbrev pub Continues : List ℕ → ℕ → ℕ → List ℕ → Type 0
Continues dict last n out = (length out ≡ n) × All (InDict dict) out × Alternates last out

-- A position and the symbol on it.
abbrev pub IsAt : List ℕ → ℕ → ℕ → Type 0
IsAt dict c i = (i < length dict) × (c ≡ get_or dict i 0)

-- A batch behind `last` that had `room`; `chain` says how it is gone on with.
pub record IsBatch (dict : List ℕ) (room last : ℕ) (b : Batch) : Type 0 where
  pub fits : length b.out ≤ room
  pub symbols : All (InDict dict) b.out
  pub chain : (more : List ℕ) → Alternates b.last more → Alternates last (b.out ++ more)
  pub at : IsAt dict b.last b.last_idx

pub prepend_lem :
    (out : List ℕ) (r : Option (List ℕ × List ℕ)) (P Q : List ℕ → Type 0)
    → ((more : List ℕ) → P more → Q (out ++ more))
    → Ensures P r
    → Ensures Q (prepend out r)
prepend_lem out none P Q f h = tt
prepend_lem out (some (more, ws)) P Q f h = (f more h.0, h.1)

module _ (dict : List ℕ) (several : 2 ≤ length dict) (few : length dict < 2 ^ 63) where
  pub draw_batch-IsBatch :
      (draws room lo prod last last_idx : ℕ)
      → IsU64 lo
      → IsAt dict last last_idx
      → IsBatch dict room last (draw_batch dict (length dict - 1) draws room lo prod last last_idx)
  unfolding draw_batch
  draw_batch-IsBatch zero room lo prod last last_idx hl held = record {
    fits = omega arith;
    symbols = tt;
    chain = λ more h. h;
    at = held;
  }
  draw_batch-IsBatch (suc draws) zero lo prod last last_idx hl held = record {
    fits = omega arith;
    symbols = tt;
    chain = λ more h. h;
    at = held;
  }
  draw_batch-IsBatch (suc draws) (suc room) lo prod last last_idx hl held =
      let n1 = length dict - 1 in
      let idx = position last_idx (mul_hi lo n1) in
      let c = get_or dict idx 0 in
      let below = mul_hi-lt n1 lo (omega arith) hl in
      let idx_lt : idx < length dict =
        omega (arith, position_lem (length dict) last_idx (mul_hi lo n1) few held.0 below) in
      let kept =
        draw_batch-IsBatch draws (suc room) (mul_lo lo n1) (u64 (prod * n1)) last last_idx
          (omega arith) held in
      let next =
        draw_batch-IsBatch draws room (mul_lo lo n1) (u64 (prod * n1)) c idx (omega arith)
          (idx_lt, refl) in
      elim (Bool-cases (c == last)) [
        | inl e ↦ rw e kept
        | inr e ↦ rw e (record {
          fits = omega (arith, next.fits);
          symbols = ((idx, idx_lt, refl), next.symbols);
          chain = λ more h. (ground arith, next.chain more h);
          at = next.at;
        })
      ]

  pub fill_batches-Ensures :
      (batch room last last_idx : ℕ) (ws : List ℕ)
      → All IsU64 ws
      → IsAt dict last last_idx
      → Ensures
          (Continues dict last room)
          (fill_batches dict (length dict - 1) batch room last last_idx ws)
  unfolding fill_batches
  fill_batches-Ensures batch zero last last_idx ws hs held = ((refl, tt, tt), hs)
  fill_batches-Ensures batch (suc room) last last_idx [] hs held = tt
  fill_batches-Ensures batch (suc room) last last_idx (w ∷ ws) hs held =
      let b = draw_batch dict (length dict - 1) batch (suc room) w 1 last last_idx in
      let good = draw_batch-IsBatch batch (suc room) w 1 last last_idx hs.0 held in
      let left = suc room - length b.out in
      elim (Bool-cases (rejected b)) [
        | inl e ↦ rw e (fill_batches-Ensures batch (suc room) last last_idx ws hs.1 held)
        | inr e ↦ rw e (
            prepend_lem b.out (fill_batches dict (length dict - 1) batch left b.last b.last_idx ws)
              (Continues dict b.last left) (Continues dict last (suc room))
              (λ more h. (
                omega (arith, length-append b.out more, h.0, good.fits),
                All-append (InDict dict) b.out more good.symbols h.1,
                good.chain more h.2,
              ))
              (fill_batches-Ensures batch left b.last b.last_idx ws hs.1 good.at))
      ]

pub fill_behind-Ensures :
    (buffer dict : List ℕ) (i : ℕ) (ws : List ℕ)
    → length dict < 2 ^ 63
    → (length buffer ≡ 0) ⊎ (2 ≤ length dict)
    → i < length dict
    → All IsU64 ws
    → Ensures (Continues dict (get_or dict i 0) (length buffer)) (fill_behind buffer dict i ws)
unfolding fill_behind
fill_behind-Ensures buffer dict i ws few enough hi hs = elim (Bool-cases (ltb (length dict) 2)) [
  | inl e ↦ rw e (kept buffer enough (ltb→lt _ _ e))
  | inr e ↦ rw e (
      fill_batches-Ensures dict (ltb→le _ _ e) few (new_batch_spec (length dict - 1)).k
        (length buffer) (get_or dict i 0) i ws hs (hi, refl))
]
  where
    kept :
        (buffer : List ℕ)
        → (length buffer ≡ 0) ⊎ (2 ≤ length dict)
        → length dict < 2
        → Continues dict (get_or dict i 0) (length buffer) buffer × All IsU64 ws
    kept [] enough one = ((refl, tt, tt), hs)
    kept (c ∷ cs) enough one = absurd (omega arith)

-- A string of `n` symbols of the dictionary without equal neighbours.
abbrev pub IsString : List ℕ → ℕ → List ℕ → Type 0
IsString dict n [] = n ≡ 0
IsString dict n (c ∷ cs) = (suc (length cs) ≡ n) × All (InDict dict) (c ∷ cs) × Alternates c cs

-- A first symbol, and what may stand behind it.
pub Continues-IsString :
    (dict : List ℕ) (n i : ℕ) (rest : List ℕ)
    → i < length dict
    → Continues dict (get_or dict i 0) n rest
    → IsString dict (suc n) (get_or dict i 0 ∷ rest)
Continues-IsString dict n i rest hi h = (ap suc h.0, ((i, hi, refl), h.1), h.2)

-- Whatever `fillBatchedNoRepeat` writes over a buffer is a string of the dictionary as long as the
-- buffer without equal neighbours, provided a dictionary of one symbol serves one byte at most.
pub fill_batched-Ensures :
    (buffer dict ws : List ℕ)
    → 0 < length dict
    → length dict < 2 ^ 63
    → (length buffer ≤ 1) ⊎ (2 ≤ length dict)
    → All IsU64 ws
    → Ensures (IsString dict (length buffer)) (fill_batched_no_repeat buffer dict ws)
unfolding fill_batched_no_repeat
fill_batched-Ensures [] dict ws some_symbol few enough hs = (refl, hs)
fill_batched-Ensures (_ ∷ buffer) dict [] some_symbol few enough hs = tt
fill_batched-Ensures (_ ∷ buffer) dict (x ∷ ws) some_symbol few enough hs =
    Ensures-bind (λ i. i < length dict) (IsString dict (suc (length buffer)))
      (bounded_from x (length dict) ws) _
      (bounded_from-Ensures (length dict) x ws some_symbol (omega arith) hs.0 hs.1)
      (λ i left hi hl.
        Ensures-bind (Continues dict (get_or dict i 0) (length buffer))
          (IsString dict (suc (length buffer))) (fill_behind buffer dict i left) _
          (fill_behind-Ensures buffer dict i left few (behind enough) hi hl)
          (λ rest left' hr hl'. (Continues-IsString dict (length buffer) i rest hi hr, hl')))
  where
    behind : (suc (length buffer) ≤ 1) ⊎ (2 ≤ length dict) → (length buffer ≡ 0) ⊎ (2 ≤ length dict)
    behind (inl h) = inl (omega arith)
    behind (inr h) = inr h
