-- ===== src/Word/Custom/Outcome.antt =====
-- `appendCustom`: whatever it returns, and what it refuses.
use randomizer.Base.{
  ℕ, zero, suc, ◌^◌, ◌≤◌, ◌<◌, ◌≡◌, refl, sym, ◌∙◌, ◌≢◌, ◌⊎◌, inl, inr, true, false, some, List, [],
  ◌∷◌, arith, ltb, ◌==◌, lt→ltb, Bool-cases, length, get_or, All, IsU64, Ensures,
}
use randomizer.Base.Int.{ℤ, pos, negsuc, ◌≤ℤ◌, ◌<ℤ◌}
use randomizer.Word.Custom.{has_other, append_sized, append_custom}
use randomizer.Word.Custom.Result.{Extends, Serves, append_sized-Ensures}
use randomizer.Word.Lives.Fill.{Varied}

-- The search for a second symbol, on both of its outcomes.
has_other-Varied :
    (first : ℕ) (others : List ℕ)
    → has_other first others ≡ true
    → (j : ℕ) × (j < length others) × (first ≢ get_or others j 0)
unfolding has_other
has_other-Varied first [] h = cc
has_other-Varied first (c ∷ cs) h = elim (Bool-cases (c == first)) [
  | inl e ↦ let (j, lt, ne) = has_other-Varied first cs (rw e at h) in (suc j, omega arith, ne)
  | inr e ↦ (0, omega arith, ground arith)
]

has_other-same :
    (first : ℕ) (others : List ℕ)
    → has_other first others ≡ false
    → (j : ℕ) → j < length others
    → get_or others j 0 ≡ first
unfolding has_other
has_other-same first [] h j lt = absurd (omega arith)
has_other-same first (c ∷ cs) h zero lt = ground arith
has_other-same first (c ∷ cs) h (suc j) lt = has_other-same first cs (ground arith) j (omega arith)

-- All positions hold one symbol.
abbrev pub Constant : List ℕ → Type 0
Constant dict = (i j : ℕ) → i < length dict → j < length dict → get_or dict i 0 ≡ get_or dict j 0

Varied-has_other :
    (first : ℕ) (others : List ℕ) → Varied (first ∷ others) → has_other first others ≡ true
Varied-has_other first others varied = elim (Bool-cases (has_other first others)) [
  | inl e ↦ e
  | inr e ↦ absurd (varied.4 (same e varied.0 varied.2 ∙ sym (same e varied.1 varied.3)))
]
  where
    same :
        has_other first others ≡ false
        → (i : ℕ) → i < length (first ∷ others)
        → get_or (first ∷ others) i 0 ≡ first
    same e zero lt = refl
    same e (suc i) lt = has_other-same first others e i (omega arith)

Constant-has_other :
    (first : ℕ) (others : List ℕ) → Constant (first ∷ others) → has_other first others ≡ false
Constant-has_other first others same = elim (Bool-cases (has_other first others)) [
  | inl e ↦
      let (j, lt, ne) = has_other-Varied first others e in
      absurd (ne (same 0 (suc j) (omega arith) (omega arith)))
  | inr e ↦ e
]

-- The dictionary has a symbol, and two different ones where the string has neighbours.
abbrev pub CanServe : List ℕ → ℕ → Type 0
CanServe dict n = (0 < length dict) × ((n ≤ 1) ⊎ Varied dict)

pub CanServe-Serves : (dict : List ℕ) (n : ℕ) → CanServe dict n → Serves dict n
CanServe-Serves [] n h = absurd (omega arith)
CanServe-Serves (first ∷ others) n (some_symbol, inl le) = inl le
CanServe-Serves (first ∷ others) n (some_symbol, inr varied) =
    inr (Varied-has_other first others varied)

-- Whatever is returned, for the dictionaries that can serve.
pub append_custom-Ensures :
    (dst spare dict : List ℕ) (n : ℕ) (ws : List ℕ)
    → length dict < 2 ^ 63
    → CanServe dict (suc n)
    → All IsU64 ws
    → Ensures (Extends dst dict (suc n)) (append_custom dst spare dict (pos (suc n)) ws)
unfolding append_custom
append_custom-Ensures dst spare dict n ws few can hs =
    append_sized-Ensures dst spare dict (suc n) ws few (CanServe-Serves dict (suc n) can) hs

-- A length of 0 or less, an empty dictionary, and a dictionary of one symbol for more than one byte
-- leave dst as it is, and no word is drawn.
pub append_custom_rejects :
    (dst spare dict : List ℕ) (size : ℤ) (ws : List ℕ)
    → (size ≤ℤ pos 0) ⊎ (length dict ≡ 0) ⊎ (pos 1 <ℤ size) × Constant dict
    → append_custom dst spare dict size ws ≡ some (dst, ws)
unfolding append_custom append_sized has_other
append_custom_rejects dst spare dict (negsuc n) ws bad = refl
append_custom_rejects dst spare dict (pos zero) ws bad = refl
append_custom_rejects dst spare [] (pos (suc n)) ws bad = refl
append_custom_rejects dst spare (first ∷ others) (pos (suc n)) ws bad =
    let many : ltb 1 (suc n) ≡ true = elim bad [
      | inl p ↦ absurd (omega arith)
      | inr (inl p) ↦ absurd (omega arith)
      | inr (inr p) ↦ lt→ltb _ _ (omega arith)
    ] in
    let one : has_other first others ≡ false = elim bad [
      | inl p ↦ absurd (omega arith)
      | inr (inl p) ↦ absurd (omega arith)
      | inr (inr p) ↦ Constant-has_other first others p.1
    ] in
    rw (many, one) refl
