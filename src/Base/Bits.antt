-- ===== src/Base/Bits.antt =====
-- Laws of `&`, `|`, `^` and `&^` at every width, from their lowest digits.
mod Step
pub mod Merge
pub mod Xorshift
use Prim.Native.Nat.{
  ℕ, zero, suc, ◌+◌, ◌-◌, ◌*◌, ◌/◌, ◌%◌, ◌^◌, ◌≤◌, ◌<◌, min, max, differ, bit_and, bit_or, bit_xor,
  bit_and-bitwise, bit_or-bitwise, bit_xor-bitwise,
}
use mathlib.Core.Path.{◌≡◌, refl, ap, ap₂, ◌∙◌, sym}
use native.Mathlib.Omega.{arith}
use native.Mathlib.Nat.{pow-suc, one-le-pow, mod-lt, div-add-mod'}
use Step.{bit_and_halves, bit_or_halves, bit_xor_halves}

double_block : (m k : ℕ) → m * 2 ^ suc k ≡ m * 2 ^ k * 2
double_block m k = omega (arith, ap (◌*◌ m) (pow-suc 2 k))

-- An operation by digits acts on the bits above `k` and on those below apart, and keeps to `k`
-- bits where its arguments do.
module _ (op bit : ℕ → ℕ → ℕ)
    (step : (a b : ℕ) → op a b ≡ bit (a % 2) (b % 2) + 2 * op (a / 2) (b / 2))
    (bit_le : (a b : ℕ) → a < 2 → b < 2 → bit a b < 2) (op-zero : op 0 0 ≡ 0) where
  split_at :
      (k q r p s : ℕ)
      → r < 2 ^ k
      → s < 2 ^ k
      → op (q * 2 ^ k + r) (p * 2 ^ k + s) ≡ op q p * 2 ^ k + op r s
  split_at zero q r p s hr hs =
      let er : r ≡ 0 = omega arith in
      let es : s ≡ 0 = omega arith in
      let eq : q * 2 ^ 0 + 0 ≡ q = omega arith in
      let ep : p * 2 ^ 0 + 0 ≡ p = omega arith in rw (er, es, eq, ep, op-zero) (omega arith)
  split_at (suc k) q r p s hr hs =
      let A : ℕ = q * 2 ^ suc k + r in
      let B : ℕ = p * 2 ^ suc k + s in
      let ea : A / 2 ≡ q * 2 ^ k + r / 2 = omega (arith, double_block q k) in
      let eb : B / 2 ≡ p * 2 ^ k + s / 2 = omega (arith, double_block p k) in
      let ma : A % 2 ≡ r % 2 = omega (arith, double_block q k) in
      let mb : B % 2 ≡ s % 2 = omega (arith, double_block p k) in
      let ih =
        split_at k q (r / 2) p (s / 2) (omega (arith, pow-suc 2 k)) (omega (arith, pow-suc 2 k)) in
      omega (
        arith,
        step A B ∙ ap₂ ◌+◌ (ap₂ bit ma mb) (ap (◌*◌ 2) (ap₂ op ea eb ∙ ih)),
        step r s,
        double_block (op q p) k,
      )

  op-lt : (k a b : ℕ) → a < 2 ^ k → b < 2 ^ k → op a b < 2 ^ k
  op-lt zero a b ha hb =
      let ea : a ≡ 0 = omega arith in
      let eb : b ≡ 0 = omega arith in rw (ea, eb, op-zero) (omega arith)
  op-lt (suc k) a b ha hb = omega (
    arith,
    step a b,
    bit_le (a % 2) (b % 2) (omega arith) (omega arith),
    op-lt k (a / 2) (b / 2) (omega (arith, pow-suc 2 k)) (omega (arith, pow-suc 2 k)),
    pow-suc 2 k,
  )

min-bit : (a b : ℕ) → a < 2 → b < 2 → min a b < 2
min-bit a b p q = omega arith

max-bit : (a b : ℕ) → a < 2 → b < 2 → max a b < 2
max-bit a b p q = omega arith

differ-parity : (a b : ℕ) → a < 2 → b < 2 → differ a b ≡ (a + b) % 2
differ-parity zero zero p q = refl
differ-parity zero (suc zero) p q = refl
differ-parity (suc zero) zero p q = refl
differ-parity (suc zero) (suc zero) p q = refl
differ-parity (suc (suc a)) b p q = absurd (omega arith)
differ-parity zero (suc (suc b)) p q = absurd (omega arith)
differ-parity (suc zero) (suc (suc b)) p q = absurd (omega arith)

differ-bit : (a b : ℕ) → a < 2 → b < 2 → differ a b < 2
differ-bit a b p q = omega (arith, differ-parity a b p q)

pub bit_and_split :
    (k q r p s : ℕ)
    → r < 2 ^ k
    → s < 2 ^ k
    → bit_and (q * 2 ^ k + r) (p * 2 ^ k + s) ≡ bit_and q p * 2 ^ k + bit_and r s
bit_and_split = split_at bit_and min bit_and_halves min-bit refl

pub bit_or_split :
    (k q r p s : ℕ)
    → r < 2 ^ k
    → s < 2 ^ k
    → bit_or (q * 2 ^ k + r) (p * 2 ^ k + s) ≡ bit_or q p * 2 ^ k + bit_or r s
bit_or_split = split_at bit_or max bit_or_halves max-bit refl

pub bit_xor_split :
    (k q r p s : ℕ)
    → r < 2 ^ k
    → s < 2 ^ k
    → bit_xor (q * 2 ^ k + r) (p * 2 ^ k + s) ≡ bit_xor q p * 2 ^ k + bit_xor r s
bit_xor_split = split_at bit_xor differ bit_xor_halves differ-bit refl

pub bit_or-lt : (k a b : ℕ) → a < 2 ^ k → b < 2 ^ k → bit_or a b < 2 ^ k
bit_or-lt = op-lt bit_or max bit_or_halves max-bit refl

pub bit_xor-lt : (k a b : ℕ) → a < 2 ^ k → b < 2 ^ k → bit_xor a b < 2 ^ k
bit_xor-lt = op-lt bit_xor differ bit_xor_halves differ-bit refl

-- Induction on a bound, for laws that go from `a / 2` to `a`.
halving {ℓ} :
    (P : ℕ → Type ℓ) → P 0 → ((a : ℕ) → P (suc a / 2) → P (suc a)) → (n a : ℕ) → a ≤ n → P a
halving P base up n zero h = base
halving P base up zero (suc a) h = absurd (omega arith)
halving P base up (suc n) (suc a) h = up a (halving P base up n (suc a / 2) (omega arith))

pub bit_and-zero : (a : ℕ) → bit_and a 0 ≡ 0
bit_and-zero a =
    halving (λ x. bit_and x 0 ≡ 0) refl (λ x ih. omega (arith, bit_and_halves (suc x) 0, ih)) a a
      (omega arith)

pub bit_or-zero : (a : ℕ) → bit_or a 0 ≡ a
bit_or-zero a =
    halving (λ x. bit_or x 0 ≡ x) refl (λ x ih. omega (arith, bit_or_halves (suc x) 0, ih)) a a
      (omega arith)

pub bit_xor-zero : (a : ℕ) → bit_xor a 0 ≡ a
bit_xor-zero a =
    halving (λ x. bit_xor x 0 ≡ x) refl
      (λ x ih. omega (
        arith,
        bit_xor_halves (suc x) 0,
        differ-parity (suc x % 2) 0 (omega arith) (omega arith),
        ih,
      ))
      a a (omega arith)

pub zero-bit_and : (a : ℕ) → bit_and 0 a ≡ 0
zero-bit_and a = bit_and-bitwise 0 a

pub bit_and-le_fuel : (n a b : ℕ) → a ≤ n → bit_and a b ≤ a
bit_and-le_fuel n zero b h = omega (arith, zero-bit_and b)
bit_and-le_fuel zero (suc a) b h = absurd (omega arith)
bit_and-le_fuel (suc n) (suc a) b h =
    omega (arith, bit_and_halves (suc a) b, bit_and-le_fuel n (suc a / 2) (b / 2) (omega arith))

pub bit_and-le : (a b : ℕ) → bit_and a b ≤ a
bit_and-le a b = bit_and-le_fuel a a b (omega arith)

zero-bit_or : (a : ℕ) → bit_or 0 a ≡ a
zero-bit_or a = bit_or-bitwise 0 a

zero-bit_xor : (a : ℕ) → bit_xor 0 a ≡ a
zero-bit_xor a = bit_xor-bitwise 0 a

-- `(q << k) | r` is a sum when `r` fits `k` bits, whichever side it stands on.
pub bit_or_fields : (k q r : ℕ) → r < 2 ^ k → bit_or (q * 2 ^ k) r ≡ q * 2 ^ k + r
bit_or_fields k q r h = omega (
  arith,
  ap (λ t. bit_or t r) (let e : q * 2 ^ k ≡ q * 2 ^ k + 0 = omega arith in e),
  ap (bit_or (q * 2 ^ k + 0)) (let e : r ≡ 0 * 2 ^ k + r = omega arith in e),
  bit_or_split k q 0 0 r (omega (arith, one-le-pow k 2)) h,
  ap (λ t. t * 2 ^ k) (bit_or-zero q),
  zero-bit_or r,
)

pub bit_or_fields_swap : (k q r : ℕ) → r < 2 ^ k → bit_or r (q * 2 ^ k) ≡ q * 2 ^ k + r
bit_or_fields_swap k q r h = omega (
  arith,
  ap (λ t. bit_or r t) (let e : q * 2 ^ k ≡ q * 2 ^ k + 0 = omega arith in e),
  ap (λ t. bit_or t (q * 2 ^ k + 0)) (let e : r ≡ 0 * 2 ^ k + r = omega arith in e),
  bit_or_split k 0 r q 0 h (omega (arith, one-le-pow k 2)),
  ap (λ t. t * 2 ^ k) (zero-bit_or q),
  bit_or-zero r,
)

-- A number by its bits above `k` and those below.
module _ (k a : ℕ) where
  low_part : a % 2 ^ k < 2 ^ k
  low_part = mod-lt a (one-le-pow k 2 (omega arith))

  parts : a ≡ a / 2 ^ k * 2 ^ k + a % 2 ^ k
  parts = sym (div-add-mod' a (2 ^ k))

full_mask : (k r : ℕ) → r < 2 ^ k → bit_and r (2 ^ k - 1) ≡ r
full_mask zero r h = rw (bit_and-zero r) (omega arith)
full_mask (suc k) r h = omega (
  arith,
  bit_and_halves r (2 ^ suc k - 1),
  ap (bit_and (r / 2))
      (let e : (2 ^ suc k - 1) / 2 ≡ 2 ^ k - 1 = omega (arith, pow-suc 2 k, one-le-pow k 2) in e),
  full_mask k (r / 2) (omega (arith, pow-suc 2 k)),
  pow-suc 2 k,
  one-le-pow k 2,
)

pub bit_and_mask : (k a : ℕ) → bit_and a (2 ^ k - 1) ≡ a % 2 ^ k
bit_and_mask k a = omega (
  arith,
  ap₂ bit_and (parts k a) (let e : 2 ^ k - 1 ≡ 0 * 2 ^ k + (2 ^ k - 1) = omega arith in e),
  bit_and_split k (a / 2 ^ k) (a % 2 ^ k) 0 (2 ^ k - 1) (low_part k a)
      (omega (arith, one-le-pow k 2)),
  ap (λ t. t * 2 ^ k) (bit_and-zero (a / 2 ^ k)),
  full_mask k (a % 2 ^ k) (low_part k a),
)

-- `j` bits from bit `k` up.
pub bit_and_field : (k j a : ℕ) → bit_and a ((2 ^ j - 1) * 2 ^ k) ≡ a / 2 ^ k % 2 ^ j * 2 ^ k
bit_and_field k j a = omega (
  arith,
  ap₂ bit_and (parts k a)
      (let e : (2 ^ j - 1) * 2 ^ k ≡ (2 ^ j - 1) * 2 ^ k + 0 = omega arith in e),
  bit_and_split k (a / 2 ^ k) (a % 2 ^ k) (2 ^ j - 1) 0 (low_part k a)
      (one-le-pow k 2 (omega arith)),
  ap (λ t. t * 2 ^ k) (bit_and_mask j (a / 2 ^ k)),
  bit_and-zero (a % 2 ^ k),
)
