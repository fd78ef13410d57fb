-- ===== src/Telecom/Digits.antt =====
-- Random digits and the Type Allocation Code.
use randomizer.Base.{
  ℕ, zero, suc, ◌+◌, ◌-◌, ◌*◌, ◌/◌, ◌%◌, ◌≤◌, ◌<◌, min, ◌≡◌, refl, sym, ◌∙◌, List, [], ◌∷◌, ◌++◌,
  arith, length, length-append, All, All-append, u8, IsU64, draw_until, IsFound, Plenty, Gives,
  Plenty-suc, Gives-bind, Gives-weaken, draw_until-Gives,
}
use mathlib.Core.List.{append_assoc, append-nil}
use randomizer.Number.Accepts.{Accepts}
use randomizer.Telecom.{put_digits, digit_word, digit_rounds, append_random_digits}
use randomizer.Telecom.Luhn.{IsDigit}

-- A word that no rejection of the component throws away.
abbrev pub IsGood : ℕ → Type 0
IsGood x =
    (x < 18_000_000_000_000_000_000) × Accepts 14 x × Accepts 95 x × Accepts 99 x × Accepts 0x60 x

-- A string of `n` digits behind `dst`.
abbrev pub Extends : List ℕ → ℕ → List ℕ → Type 0
Extends dst n out = (cs : List ℕ) × (out ≡ dst ++ cs) × (length cs ≡ n) × All IsDigit cs

put_digits-IsDigit : (n x : ℕ) → (length (put_digits n x) ≡ n) × All IsDigit (put_digits n x)
unfolding put_digits
put_digits-IsDigit zero x = (refl, tt)
put_digits-IsDigit (suc n) x =
    let t = put_digits-IsDigit n (x / 10) in
    (
      omega (arith, length-append (put_digits n (x / 10)) ((48 + u8 (x % 10)) ∷ []), t.0),
      All-append IsDigit (put_digits n (x / 10)) ((48 + u8 (x % 10)) ∷ []) t.1 (omega arith),
    )

Extends-trans :
    (dst out : List ℕ) (m n : ℕ) (cs : List ℕ)
    → length cs ≡ m
    → All IsDigit cs
    → Extends (dst ++ cs) n out
    → Extends dst (m + n) out
Extends-trans dst out m n cs len ds h = (
  cs ++ h.0,
  h.1 ∙ append_assoc dst cs h.0,
  omega (arith, length-append cs h.0, h.2, len),
  All-append IsDigit cs h.0 ds h.3,
)

digit_word-IsFound : (x : ℕ) → IsGood x → IsFound (digit_word x)
unfolding digit_word
digit_word-IsFound x g = ground arith

pub Plenty-weaken : (c k : ℕ) (ws : List ℕ) → Plenty IsGood (c + k) ws → Plenty IsGood k ws
Plenty-weaken zero k ws h = let e : 0 + k ≡ k = omega arith in rw e at h
Plenty-weaken (suc c) k ws h =
    let e : suc c + k ≡ suc (c + k) = omega arith in
    Plenty-weaken c k ws (Plenty-suc IsGood (c + k) ws (rw e at h))

-- One good word for each eighteen digits begun is enough, and as many rounds as digits are.
digit_rounds-Gives :
    (c k rounds : ℕ) (dst : List ℕ) (n : ℕ) (ws : List ℕ)
    → n ≤ rounds
    → n ≤ 18 * c
    → All IsU64 ws
    → Plenty IsGood (c + k) ws
    → Gives IsGood k (Extends dst n) (digit_rounds rounds dst n ws)
unfolding digit_rounds
digit_rounds-Gives c k zero dst n ws le fits hs live =
    (([], sym (append-nil dst), omega arith, tt), hs, Plenty-weaken c k ws live)
digit_rounds-Gives c k (suc rounds) dst zero ws le fits hs live =
    (([], sym (append-nil dst), refl, tt), hs, Plenty-weaken c k ws live)
digit_rounds-Gives zero k (suc rounds) dst (suc n) ws le fits hs live = absurd (omega arith)
digit_rounds-Gives (suc c) k (suc rounds) dst (suc n) [] le fits hs live =
    let e : suc c + k ≡ suc (c + k) = omega arith in absurd (rw e at live)
digit_rounds-Gives (suc c) k (suc rounds) dst (suc n) (w ∷ ws) le fits hs live =
    let e : suc c + k ≡ suc (c + k) = omega arith in
    let now = min (suc n) 18 in
    let later = suc n - now in
    let whole : now + later ≡ suc n = omega arith in
    Gives-bind IsGood (c + k) k (λ x. Unit {0}) (Extends dst (suc n)) (draw_until digit_word w ws) _
      (draw_until-Gives IsGood (c + k) (λ x. Unit {0}) digit_word w ws (λ y a hy found. tt)
        digit_word-IsFound hs.0 hs.1 (rw e at live))
      (λ x rest h hr plenty.
        let digits = put_digits-IsDigit now x in
        Gives-weaken IsGood k (Extends (dst ++ put_digits now x) later) (Extends dst (suc n))
          (digit_rounds rounds (dst ++ put_digits now x) later rest)
          (digit_rounds-Gives c k rounds (dst ++ put_digits now x) later rest (omega arith)
            (omega arith) hr plenty)
          (λ out ext.
            rw (sym whole)
              (Extends-trans dst out now later (put_digits now x) digits.0 digits.1 ext)))

-- With a good word for each eighteen digits begun, `n` digits are appended for every `n`, and the
-- good words beyond those are left.
pub append_random_digits-Gives :
    (c k : ℕ) (dst : List ℕ) (n : ℕ) (ws : List ℕ)
    → n ≤ 18 * c
    → All IsU64 ws
    → Plenty IsGood (c + k) ws
    → Gives IsGood k (Extends dst n) (append_random_digits dst n ws)
unfolding append_random_digits
append_random_digits-Gives c k dst n ws fits hs live =
    digit_rounds-Gives c k n dst n ws (omega arith) fits hs live
