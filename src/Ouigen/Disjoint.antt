-- ===== src/Ouigen/Disjoint.antt =====
-- No organization belongs to two vendors.
use randomizer.Base.{
  ℕ, zero, suc, ◌<◌, ◌≡◌, refl, inl, inr, Bool, true, false, List, [], ◌∷◌, ◌==◌, if◌then◌else◌,
  ==_iff, Bool-cases, holds_below, holds_below_each, length, same_bytes, same_bytes-eq,
}
use randomizer.Ouigen.{Vendor, accepted}
use randomizer.Ouigen.Vendors.{vendors}

-- None of the names is accepted.
none_accepted : List (List ℕ) → List (List ℕ) → Bool
unfolding accepted
none_accepted [] accepts = true
none_accepted (name ∷ names) accepts =
    if accepted accepts name then false else none_accepted names accepts

abbrev pub accepts_at : List Vendor → ℕ → List (List ℕ)
accepts_at [] i = []
accepts_at (v ∷ vs) zero = v.accepts
accepts_at (v ∷ vs) (suc i) = accepts_at vs i

apart : List Vendor → ℕ → ℕ → Bool
unfolding none_accepted
apart vs i j = if i == j then true else none_accepted (accepts_at vs i) (accepts_at vs j)

accepted-none :
    (names accepts : List (List ℕ)) (org : List ℕ)
    → none_accepted names accepts ≡ true
    → accepted names org ≡ true
    → accepted accepts org ≡ false
unfolding none_accepted accepted
accepted-none [] accepts org apart_ok here = cc
accepted-none (name ∷ names) accepts org apart_ok here = elim (Bool-cases (accepted accepts name)) [
  | inl bad ↦ absurd (let p = rw bad at apart_ok in cc)
  | inr good ↦ elim (Bool-cases (same_bytes name org)) [
    | inl same ↦ rw (← same_bytes-eq name org same) good
    | inr other ↦ accepted-none names accepts org (rw good at apart_ok) (rw other at here)
  ]
]

apart_table :
    holds_below (λ i. holds_below (λ j. apart vendors i j) (length vendors)) (length vendors) ≡ true
unfolding holds_below apart vendors same_bytes
apart_table = refl

-- The patterns of two vendors match no common organization, so that it does not matter in which order
-- selectOUIs tries the vendors.
pub vendors-apart :
    (i j : ℕ) (org : List ℕ)
    → i < length vendors
    → j < length vendors
    → accepted (accepts_at vendors i) org ≡ true
    → accepted (accepts_at vendors j) org ≡ true
    → i ≡ j
unfolding apart
vendors-apart i j org hi hj here there =
    let row = holds_below_each _ (length vendors) apart_table i hi in
    let cell = holds_below_each _ (length vendors) row j hj in
    elim (Bool-cases (i == j)) [
      | inl same ↦ (==_iff i j).0 same
      | inr other ↦
          let no_more =
            accepted-none (accepts_at vendors i) (accepts_at vendors j) org (rw other at cell)
              here in
          absurd (cc)
    ]
