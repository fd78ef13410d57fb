-- ===== src/Ouigen/First.antt =====
-- The vendor that the loop over the vendors stops at.
use randomizer.Base.{
  ℕ, zero, suc, ◌≡◌, refl, inl, inr, true, false, none, some, List, [], ◌∷◌, Bool-cases, All,
  Option-cases,
}
use randomizer.Ouigen.{Vendor, accepted, find_vendor}

-- The vendor's pattern matches, and none before it does.
abbrev pub IsFirst : List Vendor → List ℕ → ℕ → Type 0
IsFirst [] org i = ⊥
IsFirst (v ∷ vendors) org zero = accepted v.accepts org ≡ true
IsFirst (v ∷ vendors) org (suc i) = (accepted v.accepts org ≡ false) × IsFirst vendors org i

pub find_vendor-IsFirst :
    (vendors : List Vendor) (org : List ℕ) (i : ℕ)
    → find_vendor vendors org ≡ some i
    → IsFirst vendors org i
unfolding find_vendor
find_vendor-IsFirst [] org i e = cc
find_vendor-IsFirst (v ∷ vendors) org i e = elim (Bool-cases (accepted v.accepts org)) [
  | inl here ↦ let first : 0 ≡ i = cc (rw here at e) in rw (← first) here
  | inr later ↦ elim (Option-cases (find_vendor vendors org)) [
    | inl nowhere ↦ cc (rw (later, nowhere) at e)
    | inr (k, at) ↦
        let next : suc k ≡ i = cc (rw (later, at) at e) in
        rw (← next) (later, find_vendor-IsFirst vendors org k at)
  ]
]

pub find_vendor-some :
    (vendors : List Vendor) (org : List ℕ) (i : ℕ)
    → IsFirst vendors org i
    → find_vendor vendors org ≡ some i
unfolding find_vendor
find_vendor-some [] org i h = absurd h
find_vendor-some (v ∷ vendors) org zero h = rw h refl
find_vendor-some (v ∷ vendors) org (suc i) h = rw (h.0, find_vendor-some vendors org i h.1) refl

pub find_vendor-none :
    (vendors : List Vendor) (org : List ℕ)
    → All (λ v. accepted v.accepts org ≡ false) vendors
    → find_vendor vendors org ≡ none
unfolding find_vendor
find_vendor-none [] org h = refl
find_vendor-none (v ∷ vendors) org h = rw (h.0, find_vendor-none vendors org h.1) refl
