-- ===== src/Base/Bits/Xorshift.antt =====
-- `z ^ (z >> k)` loses nothing.
use Prim.Native.Nat.{ℕ, zero, suc, ◌+◌, ◌*◌, ◌/◌, ◌%◌, ◌^◌, ◌≤◌, ◌<◌, bit_xor, differ}
use mathlib.Core.Path.{◌≡◌, sym, ap, ◌∙◌, ap₂}
use native.Mathlib.Omega.{arith}
use native.Mathlib.Nat.{
  one-le-pow, mod-lt, div-add-mod', div-div-eq-div-mul, mul-add-div_right, div-eq_of_lt,
}
use randomizer.Base.Bits.{bit_xor_split, bit_xor-lt, differ-parity, differ-bit}
use randomizer.Base.Bits.Step.{bit_xor_halves}

differ-cancel : (x y c : ℕ) → x < 2 → y < 2 → c < 2 → differ x c ≡ differ y c → x ≡ y
differ-cancel x y c hx hy hc e = omega (arith, e, differ-parity x c hx hc, differ-parity y c hy hc)

bit_xor-cancel_fuel : (n a b c : ℕ) → a ≤ n → b ≤ n → bit_xor a c ≡ bit_xor b c → a ≡ b
bit_xor-cancel_fuel zero a b c ha hb e = omega arith
bit_xor-cancel_fuel (suc n) a b c ha hb e =
    let ea = bit_xor_halves a c in
    let eb = bit_xor_halves b c in
    let da = differ-bit (a % 2) (c % 2) (omega arith) (omega arith) in
    let db = differ-bit (b % 2) (c % 2) (omega arith) (omega arith) in
    let last : differ (a % 2) (c % 2) ≡ differ (b % 2) (c % 2) = omega arith in
    let rest : bit_xor (a / 2) (c / 2) ≡ bit_xor (b / 2) (c / 2) = omega arith in
    omega (
      arith,
      differ-cancel (a % 2) (b % 2) (c % 2) (omega arith) (omega arith) (omega arith) last,
      bit_xor-cancel_fuel n (a / 2) (b / 2) (c / 2) (omega arith) (omega arith) rest,
    )

pub bit_xor-cancel : (a b c : ℕ) → bit_xor a c ≡ bit_xor b c → a ≡ b
bit_xor-cancel a b c e = bit_xor-cancel_fuel (a + b) a b c (omega arith) (omega arith) e

-- A shift of an exclusive or.
pub shift-bit_xor : (k a b : ℕ) → bit_xor a b / 2 ^ k ≡ bit_xor (a / 2 ^ k) (b / 2 ^ k)
shift-bit_xor k a b =
    ap (λ t. t / 2 ^ k)
      (ap₂ bit_xor (sym (div-add-mod' a (2 ^ k))) (sym (div-add-mod' b (2 ^ k)))
        ∙ bit_xor_split k (a / 2 ^ k) (a % 2 ^ k) (b / 2 ^ k) (b % 2 ^ k) (mod-lt a pos)
            (mod-lt b pos))
    ∙ mul-add-div_right pos (bit_xor (a / 2 ^ k) (b / 2 ^ k)) low
    ∙ omega
        (arith, div-eq_of_lt (bit_xor-lt k (a % 2 ^ k) (b % 2 ^ k) (mod-lt a pos) (mod-lt b pos)))
  where
    pos : 0 < 2 ^ k
    pos = one-le-pow k 2 (omega arith)

    low : ℕ
    low = bit_xor (a % 2 ^ k) (b % 2 ^ k)

-- Where the shifted parts agree at a place, the words agree there.
agree_below :
    (k m a b : ℕ)
    → bit_xor a (a / 2 ^ k) ≡ bit_xor b (b / 2 ^ k)
    → a / 2 ^ k / 2 ^ m ≡ b / 2 ^ k / 2 ^ m
    → a / 2 ^ m ≡ b / 2 ^ m
agree_below k m a b e h = bit_xor-cancel (a / 2 ^ m) (b / 2 ^ m) (b / 2 ^ k / 2 ^ m) (
    ap (bit_xor (a / 2 ^ m)) (sym h)
    ∙ sym (shift-bit_xor m a (a / 2 ^ k))
    ∙ ap (λ t. t / 2 ^ m) e
    ∙ shift-bit_xor m b (b / 2 ^ k))

-- A shift by at least a third of the width is undone from the top in three rounds.
pub xorshift_injective :
    (k a b : ℕ)
    → 2 ^ (k + k) ≡ 2 ^ k * 2 ^ k
    → a < 2 ^ k * (2 ^ k * 2 ^ k)
    → b < 2 ^ k * (2 ^ k * 2 ^ k)
    → bit_xor a (a / 2 ^ k) ≡ bit_xor b (b / 2 ^ k)
    → a ≡ b
xorshift_injective k a b square ha hb e =
    omega (arith, agree_below k 0 a b e (ap (λ t. t / 2 ^ 0) middle))
  where
    gone : (x : ℕ) → x < 2 ^ k * (2 ^ k * 2 ^ k) → x / 2 ^ k / 2 ^ (k + k) ≡ 0
    gone x h =
        ap (λ t. x / 2 ^ k / t) square
        ∙ div-div-eq-div-mul x (2 ^ k) (2 ^ k * 2 ^ k)
        ∙ div-eq_of_lt h

    twice : (x : ℕ) → x / 2 ^ k / 2 ^ k ≡ x / 2 ^ (k + k)
    twice x = div-div-eq-div-mul x (2 ^ k) (2 ^ k) ∙ ap (λ t. x / t) (sym square)

    top : a / 2 ^ (k + k) ≡ b / 2 ^ (k + k)
    top = agree_below k (k + k) a b e (gone a ha ∙ sym (gone b hb))

    middle : a / 2 ^ k ≡ b / 2 ^ k
    middle = agree_below k k a b e (twice a ∙ top ∙ sym (twice b))
