-- ===== src/Word/Skip.antt =====
-- The positions that are drawn, and what a batch writes whatever the word.
use randomizer.Base.{
  ℕ, ◌+◌, ◌-◌, ◌*◌, ◌^◌, ◌≤◌, ◌<◌, ◌≡◌, refl, ◌≢◌, ◌⊎◌, inl, inr, true, false, arith, ltb, leb,
  if◌then◌else◌, ltb→lt, ltb→le, lt→ltb, le→ltb, leb→le, Bool-cases, u64,
}
use randomizer.Word.{skip_past}

-- One past the last position, by the sign of a difference.
pub skip_past_lem :
    (idx last_idx : ℕ)
    → idx < 2 ^ 63
    → last_idx < 2 ^ 63
    → skip_past idx last_idx ≡ (if leb last_idx idx then 1 else 0)
unfolding skip_past
skip_past_lem idx last_idx hi hl = elim (Bool-cases (leb last_idx idx)) [
  | inl e ↦
      let le = leb→le last_idx idx e in
      let top : ltb (u64 (last_idx + 2 * 2 ^ 64 - 1 - idx)) (2 ^ 63) ≡ false =
        le→ltb _ _ (omega arith) in
      rw (e, top) refl
  | inr e ↦
      let lt : idx < last_idx = ground arith in
      let low : ltb (u64 (last_idx + 2 * 2 ^ 64 - 1 - idx)) (2 ^ 63) ≡ true =
        lt→ltb _ _ (omega arith) in
      rw (e, low) refl
]

abbrev pub position : ℕ → ℕ → ℕ
position last_idx h = h + skip_past h last_idx

pub position_lem :
    (n last_idx h : ℕ)
    → n < 2 ^ 63
    → last_idx < n
    → h < n - 1
    → (last_idx ≤ h) × (position last_idx h ≡ h + 1) ⊎ (h < last_idx) × (position last_idx h ≡ h)
position_lem n last_idx h small lt hh =
    ground (arith, skip_past_lem h last_idx (omega arith) (omega arith))

-- The candidate that a position stands for.
abbrev pub candidate : ℕ → ℕ → ℕ
candidate last_idx i = if ltb i last_idx then i else i - 1

-- The shift is a bijection from the n - 1 candidates onto the n positions other than the last one.
pub skip_past_bijection :
    (n last_idx : ℕ)
    → n < 2 ^ 63
    → last_idx < n
    → ((h : ℕ)
        → h < n - 1
        → (position last_idx h < n)
          × (position last_idx h ≢ last_idx)
          × (candidate last_idx (position last_idx h) ≡ h))
      × ((i : ℕ)
          → i < n
          → i ≢ last_idx
          → (candidate last_idx i < n - 1) × (position last_idx (candidate last_idx i) ≡ i))
skip_past_bijection n last_idx small lt = (onto, back)
  where
    onto :
        (h : ℕ)
        → h < n - 1
        → (position last_idx h < n)
          × (position last_idx h ≢ last_idx)
          × (candidate last_idx (position last_idx h) ≡ h)
    onto h hh = elim (position_lem n last_idx h small lt hh) [
      | inl (le, e) ↦ rw e (omega arith, λ q. omega arith, ground arith)
      | inr (below, e) ↦ rw e (omega arith, λ q. omega arith, ground arith)
    ]

    back :
        (i : ℕ)
        → i < n
        → i ≢ last_idx
        → (candidate last_idx i < n - 1) × (position last_idx (candidate last_idx i) ≡ i)
    back i hi ne = elim (Bool-cases (ltb i last_idx)) [
      | inl e ↦
          let below = ltb→lt _ _ e in
          rw e (omega arith, ground (arith, position_lem n last_idx i small lt (omega arith)))
      | inr e ↦
          let above : last_idx < i = omega (arith, ltb→le _ _ e, ne) in
          rw e (omega arith, ground (arith, position_lem n last_idx (i - 1) small lt (omega arith)))
    ]
