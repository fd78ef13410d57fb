-- ===== src/Word/Custom/Result.antt =====
-- What the caller's dictionaries give, and which of them are refused.
use randomizer.Base.{
  ℕ, zero, suc, ◌-◌, ◌^◌, ◌≤◌, ◌<◌, ◌≡◌, refl, ap, ◌⊎◌, inl, inr, true, false, ◌&&◌, not, List, [],
  ◌∷◌, ◌++◌, arith, ltb, leb, ◌==◌, le→ltb, Bool-cases, length, get_or, length-take,
  length-replicate, All, IsU64, Ensures, Ensures-bind,
}
use randomizer.Number.{bounded_from}
use randomizer.Number.Accepts.{bounded_from-Ensures}
use randomizer.Word.Skip.{position, position_lem}
use randomizer.Word.NoRepeat.{
  Continues, IsAt, IsString, prepend_lem, Continues-IsString, fill_batched-Ensures,
}
use randomizer.Word.Custom.{
  wide_rounds, wide_behind, fill_wide_no_repeat, has_other, grown, fill_custom, append_sized,
}

module _ (dict : List ℕ) (several : 2 ≤ length dict) (few : length dict < 2 ^ 63) where
  wide_rounds-Ensures :
      (fuel room last last_idx : ℕ) (ws : List ℕ)
      → All IsU64 ws
      → IsAt dict last last_idx
      → Ensures (Continues dict last room) (wide_rounds fuel dict room last last_idx ws)
  unfolding wide_rounds
  wide_rounds-Ensures zero zero last last_idx ws hs held = ((refl, tt, tt), hs)
  wide_rounds-Ensures (suc fuel) zero last last_idx ws hs held = ((refl, tt, tt), hs)
  wide_rounds-Ensures zero (suc room) last last_idx ws hs held = tt
  wide_rounds-Ensures (suc fuel) (suc room) last last_idx [] hs held = tt
  wide_rounds-Ensures (suc fuel) (suc room) last last_idx (x ∷ ws) hs held =
      Ensures-bind (λ h. h < length dict - 1) (Continues dict last (suc room))
        (bounded_from x (length dict - 1) ws) _
        (bounded_from-Ensures (length dict - 1) x ws (omega arith) (omega arith) hs.0 hs.1)
        (λ h behind lt hb.
          let idx = position last_idx h in
          let c = get_or dict idx 0 in
          let idx_lt : idx < length dict =
            omega (arith, position_lem (length dict) last_idx h few held.0 lt) in
          elim (Bool-cases (c == last)) [
            | inl e ↦ rw e (wide_rounds-Ensures fuel (suc room) last last_idx behind hb held)
            | inr e ↦ rw e (
                prepend_lem (c ∷ []) (wide_rounds fuel dict room c idx behind)
                  (Continues dict c room) (Continues dict last (suc room))
                  (λ more k. (ap suc k.0, ((idx, idx_lt, refl), k.1), (ground arith, k.2)))
                  (wide_rounds-Ensures fuel room c idx behind hb (idx_lt, refl)))
          ])

  fill_wide-Ensures :
      (buffer ws : List ℕ)
      → All IsU64 ws
      → Ensures (IsString dict (length buffer)) (fill_wide_no_repeat buffer dict ws)
  unfolding fill_wide_no_repeat wide_behind
  fill_wide-Ensures [] ws hs = (refl, hs)
  fill_wide-Ensures (_ ∷ buffer) [] hs = tt
  fill_wide-Ensures (_ ∷ buffer) (x ∷ ws) hs =
      Ensures-bind (λ i. i < length dict) (IsString dict (suc (length buffer)))
        (bounded_from x (length dict) ws) _
        (bounded_from-Ensures (length dict) x ws (omega arith) (omega arith) hs.0 hs.1)
        (λ i left hi hl.
          Ensures-bind (Continues dict (get_or dict i 0) (length buffer))
            (IsString dict (suc (length buffer)))
            (wide_rounds (length left) dict (length buffer) (get_or dict i 0) i left) _
            (wide_rounds-Ensures (length left) (length buffer) (get_or dict i 0) i left hl
              (hi, refl))
            (λ rest left' hr hl'. (Continues-IsString dict (length buffer) i rest hi hr, hl')))

-- A dictionary with two different symbols.
pub has_other-several :
    (first : ℕ) (others : List ℕ) → has_other first others ≡ true → 0 < length others
unfolding has_other
has_other-several first [] h = cc
has_other-several first (c ∷ cs) h = omega arith

fill_custom-Ensures :
    (buffer dict ws : List ℕ)
    → 0 < length dict
    → length dict < 2 ^ 63
    → (length buffer ≤ 1) ⊎ (2 ≤ length dict)
    → All IsU64 ws
    → Ensures (IsString dict (length buffer)) (fill_custom buffer dict ws)
unfolding fill_custom
fill_custom-Ensures buffer dict ws some_symbol few enough hs =
    elim (Bool-cases (leb (length dict) 256)) [
      | inl e ↦ rw e (fill_batched-Ensures buffer dict ws some_symbol few enough hs)
      | inr e ↦ rw e (fill_wide-Ensures dict (ground arith) few buffer ws hs)
    ]

pub length-grown : (spare : List ℕ) (n : ℕ) → length (grown spare n) ≡ n
length-grown spare n = ground (arith, length-replicate {A = ℕ} n 0, length-take n spare)

-- `dst` and a string of `n` symbols behind it.
abbrev pub Extends : List ℕ → List ℕ → ℕ → List ℕ → Type 0
Extends dst dict n out = (s : List ℕ) × (out ≡ dst ++ s) × IsString dict n s

-- The dictionary is not refused for a length.
abbrev pub Serves : List ℕ → ℕ → Type 0
Serves [] n = ⊥
Serves (first ∷ others) n = (n ≤ 1) ⊎ (has_other first others ≡ true)

pub goes_on :
    (n : ℕ) (first : ℕ) (others : List ℕ)
    → Serves (first ∷ others) n
    → ((ltb 1 n && not (has_other first others)) ≡ false) × ((n ≤ 1) ⊎ (1 ≤ length others))
goes_on n first others (inl h) = rw (le→ltb 1 n h) (refl, inl h)
goes_on n first others (inr e) = (
  elim (Bool-cases (ltb 1 n)) [ inl l ↦ rw (l, e) refl | inr l ↦ rw l refl ],
  inr (has_other-several first others e),
)

pub append_sized-Ensures :
    (dst spare dict : List ℕ) (n : ℕ) (ws : List ℕ)
    → length dict < 2 ^ 63
    → Serves dict n
    → All IsU64 ws
    → Ensures (Extends dst dict n) (append_sized dst spare dict n ws)
unfolding append_sized
append_sized-Ensures dst spare [] n ws few serves hs = absurd serves
append_sized-Ensures dst spare (first ∷ others) n ws few serves hs =
    let (goes, sizes) = goes_on n first others serves in
    rw goes (
      Ensures-bind (IsString (first ∷ others) n) (Extends dst (first ∷ others) n)
        (fill_custom (grown spare n) (first ∷ others) ws) _
        (sized n (grown spare n) (length-grown spare n) (
          fill_custom-Ensures (grown spare n) (first ∷ others) ws (omega arith) few
            (several (length (grown spare n)) (length-grown spare n) sizes) hs))
        (λ s left h hl. ((s, refl, h), hl)))
  where
    several : (l : ℕ) → l ≡ n → (n ≤ 1) ⊎ (1 ≤ length others) → (l ≤ 1) ⊎ (2 ≤ suc (length others))
    several l e (inl h) = inl (omega arith)
    several l e (inr h) = inr (omega arith)

    sized :
        (n : ℕ) (buffer : List ℕ)
        → length buffer ≡ n
        → Ensures
            (IsString (first ∷ others) (length buffer))
            (fill_custom buffer (first ∷ others) ws)
        → Ensures (IsString (first ∷ others) n) (fill_custom buffer (first ∷ others) ws)
    sized n buffer e h = rw e at h
