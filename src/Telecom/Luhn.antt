-- ===== src/Telecom/Luhn.antt =====
-- The check digit of an identifier, by ISO/IEC 7812.
use randomizer.Base.{
  ℕ, suc, ◌+◌, ◌-◌, ◌*◌, ◌/◌, ◌%◌, ◌≤◌, ◌≡◌, ap, ◌∙◌, inl, inr, Bool, true, not, List, [], ◌∷◌,
  ◌++◌, arith, ◌==◌, if◌then◌else◌, Bool-cases, length, length-append, All, u8,
}
use mathlib.Core.List.{reverse, reverse_aux}
use mathlib.Core.Path.{ap₂}
use randomizer.Telecom.{luhn_term, luhn_loop, luhn_check_digit}

abbrev pub IsDigit : ℕ → Type 0
IsDigit c = (48 ≤ c) × (c ≤ 57)

-- The standard's weight of the digit `d` with `k` digits to the right of it: every second digit
-- from the right is doubled and stands for its digit sum.
abbrev pub weight : ℕ → ℕ → ℕ
weight k d = if k % 2 == 1 then d * 2 / 10 + d * 2 % 10 else d

-- The sum over a string of digits, with `k` more to its right.
unfoldable pub luhn_sum : ℕ → List ℕ → ℕ
luhn_sum k [] = 0
luhn_sum k (c ∷ cs) = weight (length cs + k) (c - 48) + luhn_sum k cs

-- A number is valid when its sum is divisible by ten.
abbrev pub IsLuhn : List ℕ → Type 0
IsLuhn cs = luhn_sum 0 cs % 10 ≡ 0

abbrev odd : ℕ → Bool
odd k = k % 2 == 1

term-weight : (k c : ℕ) → IsDigit c → luhn_term (odd k) (u8 (c + 256 - 48)) ≡ weight k (c - 48)
term-weight k c h = elim (Bool-cases (odd k)) [
  | inl e ↦ rw e (ground arith)
  | inr e ↦ rw e (ground arith)
]

odd-suc : (k : ℕ) → not (odd k) ≡ odd (suc k)
odd-suc k = ground arith

-- The loop runs from the last digit to the first.
loop_reversed :
    (s k : ℕ) (xs r : List ℕ)
    → All IsDigit xs
    → luhn_loop s (odd k) (reverse_aux xs r) ≡ luhn_loop (s + luhn_sum k xs) (odd (length xs + k)) r
unfolding luhn_loop luhn_sum
loop_reversed s k [] r h = ap₂ (λ a b. luhn_loop a (odd b) r) (omega arith) (omega arith)
loop_reversed s k (x ∷ xs) r h =
    loop_reversed s k xs (x ∷ r) h.1
    ∙ ap₂ (λ a b. luhn_loop a b r)
        (ap (λ t. s + luhn_sum k xs + t) (term-weight (length xs + k) x h.0) ∙ omega arith)
        (odd-suc (length xs + k) ∙ ap odd (omega arith))

luhn_loop_lem :
    (payload : List ℕ)
    → All IsDigit payload
    → luhn_loop 0 true (reverse payload) ≡ luhn_sum 1 payload
unfolding luhn_loop
luhn_loop_lem payload h = loop_reversed 0 1 payload [] h ∙ omega arith

sum_last :
    (k : ℕ) (xs : List ℕ) (c : ℕ)
    → luhn_sum k (xs ++ (c ∷ [])) ≡ luhn_sum (suc k) xs + weight k (c - 48)
unfolding luhn_sum
sum_last k [] c = let e : 0 + k ≡ k = omega arith in ap (λ t. weight t (c - 48) + 0) e ∙ omega arith
sum_last k (x ∷ xs) c =
    let e : length (xs ++ (c ∷ [])) + k ≡ length xs + suc k =
      omega (arith, length-append xs (c ∷ [])) in
    ap₂ (λ a b. weight a (x - 48) + b) e (sum_last k xs c) ∙ omega arith

pub luhn_check_digit-IsDigit : (payload : List ℕ) → IsDigit (luhn_check_digit payload)
unfolding luhn_check_digit
luhn_check_digit-IsDigit payload = omega arith

-- ASCII digits with their check digit behind them are a valid number: its Luhn sum is divisible by
-- ten.
pub luhn_check_digit-IsLuhn :
    (payload : List ℕ) → All IsDigit payload → IsLuhn (payload ++ (luhn_check_digit payload ∷ []))
unfolding luhn_check_digit
luhn_check_digit-IsLuhn payload h =
    rw (luhn_loop_lem payload h, sum_last 0 payload (u8 (48 + (10 - luhn_sum 1 payload % 10) % 10)))
      (omega arith)
