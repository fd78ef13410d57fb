-- ===== src/Telecom/Tac.antt =====
-- Checks on the options, and the Type Allocation Code.
use randomizer.Base.{
  ℕ, suc, ◌+◌, ◌≤◌, ◌<◌, ◌≡◌, refl, ◌∙◌, ◌↔◌, inl, inr, Bool, true, false, Option, none, some, List,
  [], ◌∷◌, ◌++◌, arith, Bool-cases, holds_below, holds_below_each, length, get_or, take,
  length-append, take_prefix, All, All-append, IsU64, Plenty, Gives, Gives-bind, Gives-weaken,
}
use mathlib.Core.List.{append_assoc}
use randomizer.Number.{bounded_from}
use randomizer.Number.Accepts.{bounded_from-Gives}
use randomizer.Telecom.Codes.{reporting_body_ids, country_codes}
use randomizer.Telecom.{all_digits, is_digits, append_random_digits, random_tac, append_tac}
use randomizer.Telecom.Luhn.{IsDigit}
use randomizer.Telecom.Digits.{IsGood, Extends, append_random_digits-Gives, Plenty-weaken}

abbrev pub IsDigits : ℕ → ℕ → List ℕ → Type 0
IsDigits min_len max_len s = (min_len ≤ length s) × (length s ≤ max_len) × All IsDigit s

all_digits-IsDigit : (s : List ℕ) → (all_digits s ≡ true) ↔ All IsDigit s
unfolding all_digits
all_digits-IsDigit [] = (λ e. tt, λ h. refl)
all_digits-IsDigit (c ∷ cs) =
    let rest = all_digits-IsDigit cs in (λ e. ground (arith, rest), λ h. ground (arith, rest))

-- The check of the code is the predicate on the string.
pub is_digits-IsDigits :
    (s : List ℕ) (min_len max_len : ℕ)
    → (is_digits s min_len max_len ≡ true) ↔ IsDigits min_len max_len s
unfolding is_digits
is_digits-IsDigits s min_len max_len =
    let digits = all_digits-IsDigit s in (λ e. ground (arith, digits), λ h. ground (arith, digits))

-- What the options ask of the code `t`.
abbrev pub TacFrom : List ℕ → Bool → List ℕ → Type 0
TacFrom [] true t = take 2 t ≡ 48 ∷ 48 ∷ []
TacFrom [] false t = (i : ℕ) × (i < 14) × (take 2 t ≡ get_or reporting_body_ids i [])
TacFrom (c ∷ cs) test t = t ≡ c ∷ cs

abbrev pub HasTac : List ℕ → List ℕ → Bool → List ℕ → Type 0
HasTac dst tac test out =
    (t : List ℕ) × (out ≡ dst ++ t) × (length t ≡ 8) × All IsDigit t × TacFrom tac test t

abbrev pub Holds {ℓ} : {A : Type ℓ} → (A → Type 0) → Option A → Type 0
Holds P none = ⊥
Holds P (some a) = P a

pub reporting_body_ids-IsDigits : (i : ℕ) → i < 14 → IsDigits 2 2 (get_or reporting_body_ids i [])
unfolding is_digits holds_below
reporting_body_ids-IsDigits i h =
    (is_digits-IsDigits (get_or reporting_body_ids i []) 2 2).0
      (holds_below_each (λ j. is_digits (get_or reporting_body_ids j []) 2 2) 14 refl i h)

pub country_codes-IsDigits : (i : ℕ) → i < 95 → IsDigits 1 3 (get_or country_codes i [])
unfolding is_digits holds_below
country_codes-IsDigits i h =
    (is_digits-IsDigits (get_or country_codes i []) 1 3).0
      (holds_below_each (λ j. is_digits (get_or country_codes j []) 1 3) 95 refl i h)

-- Six digits behind a body identifier.
behind_head :
    (dst head out : List ℕ)
    → IsDigits 2 2 head
    → Extends (dst ++ head) 6 out
    → (t : List ℕ) × (out ≡ dst ++ t) × (length t ≡ 8) × All IsDigit t × (take 2 t ≡ head)
behind_head dst head out h ext = (
  head ++ ext.0,
  ext.1 ∙ append_assoc dst head ext.0,
  omega (arith, length-append head ext.0, h.0, h.1, ext.2),
  All-append IsDigit head ext.0 h.2 ext.3,
  take_prefix 2 head ext.0 (omega (arith, h.0, h.1)),
)

random_tac-Gives :
    (k : ℕ) (dst : List ℕ) (test : Bool) (ws : List ℕ)
    → All IsU64 ws
    → Plenty IsGood (suc (suc k)) ws
    → Gives IsGood k
        (λ out.
          (t : List ℕ) × (out ≡ dst ++ t) × (length t ≡ 8) × All IsDigit t × TacFrom [] test t)
        (random_tac dst test ws)
unfolding random_tac
random_tac-Gives k dst true ws hs live =
    Gives-weaken IsGood k (Extends (dst ++ (48 ∷ 48 ∷ [])) 6) _
      (append_random_digits (dst ++ (48 ∷ 48 ∷ [])) 6 ws)
      (append_random_digits-Gives 2 k (dst ++ (48 ∷ 48 ∷ [])) 6 ws (omega arith) hs
        (let e : 2 + k ≡ suc (suc k) = omega arith in rw e live))
      (λ out ext. behind_head dst (48 ∷ 48 ∷ []) out (omega arith, omega arith, omega arith) ext)
random_tac-Gives k dst false [] hs live = absurd live
random_tac-Gives k dst false (x ∷ ws) hs live =
    Gives-bind IsGood (suc k) k (λ i. i < 14) _ (bounded_from x 14 ws) _
      (bounded_from-Gives IsGood (suc k) 14 x ws (λ y g. g.1) (omega arith) (omega arith) hs.0 hs.1
        live)
      (λ i rest h hr plenty.
        let head = get_or reporting_body_ids i [] in
        Gives-weaken IsGood k (Extends (dst ++ head) 6) _
          (append_random_digits (dst ++ head) 6 rest)
          (append_random_digits-Gives 1 k (dst ++ head) 6 rest (omega arith) hr
            (let e : 1 + k ≡ suc k = omega arith in rw e plenty))
          (λ out ext.
            let b = behind_head dst head out (reporting_body_ids-IsDigits i h) ext in
            (b.0, b.1, b.2, b.3, (i, h, b.4))))

-- Options that give a code give one of eight digits.
abbrev pub TacOk : List ℕ → Type 0
TacOk [] = Unit {0}
TacOk (c ∷ cs) = IsDigits 8 8 (c ∷ cs)

pub append_tac-Gives :
    (k : ℕ) (dst tac : List ℕ) (test : Bool) (ws : List ℕ)
    → TacOk tac
    → All IsU64 ws
    → Plenty IsGood (suc (suc k)) ws
    → Gives IsGood k (Holds (HasTac dst tac test)) (append_tac dst tac test ws)
unfolding append_tac
append_tac-Gives k dst [] test ws ok hs live =
    Gives-bind IsGood k k (HasTac dst [] test) (Holds (HasTac dst [] test)) (random_tac dst test ws)
      _ (random_tac-Gives k dst test ws hs live) (λ out rest h hr plenty. (h, hr, plenty))
append_tac-Gives k dst (c ∷ cs) test ws ok hs live = rw ((is_digits-IsDigits (c ∷ cs) 8 8).1 ok) (
  (c ∷ cs, refl, omega (arith, ok.0, ok.1), ok.2, refl),
  hs,
  Plenty-weaken 2 k ws (let e : 2 + k ≡ suc (suc k) = omega arith in rw e live),
)

-- Another code is refused, and no word is drawn.
pub append_tac_rejects :
    (dst tac : List ℕ) (test : Bool) (ws : List ℕ)
    → ¬ TacOk tac
    → append_tac dst tac test ws ≡ some (none, ws)
unfolding append_tac
append_tac_rejects dst [] test ws bad = absurd (bad tt)
append_tac_rejects dst (c ∷ cs) test ws bad = elim (Bool-cases (is_digits (c ∷ cs) 8 8)) [
  | inl e ↦ absurd (bad ((is_digits-IsDigits (c ∷ cs) 8 8).0 e))
  | inr e ↦ rw e refl
]
