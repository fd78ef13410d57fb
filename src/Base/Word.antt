-- ===== src/Base/Word.antt =====
-- Casts to Go's unsigned widths and the shifts, as arithmetic. A left shift still wants the cast
-- to the width of its operand.
use mathlib.Core.List.{List, [], ◌∷◌}
use mathlib.Core.Path.{◌≡◌, refl}
use native.Mathlib.Omega.{arith}
use mathlib.Core.Bool.{Bool, true, false, ◌&&◌}
use randomizer.Base.Tests.{◌==◌}
use Prim.Native.Nat.{ℕ, ◌+◌, ◌-◌, ◌*◌, ◌/◌, ◌%◌, ◌^◌, ◌<◌, bit_and}

abbrev pub u8 : ℕ → ℕ
u8 n = n % 2 ^ 8

abbrev pub u16 : ℕ → ℕ
u16 n = n % 2 ^ 16

abbrev pub u32 : ℕ → ℕ
u32 n = n % 2 ^ 32

abbrev pub u64 : ℕ → ℕ
u64 n = n % 2 ^ 64

abbrev pub IsByte : ℕ → Type 0
IsByte n = n < 256

abbrev pub IsU32 : ℕ → Type 0
IsU32 n = n < 2 ^ 32

abbrev pub IsU64 : ℕ → Type 0
IsU64 n = n < 2 ^ 64

infixl 75 ◌<<<◌ ◌>>>◌
abbrev pub ◌<<<◌ : ℕ → ℕ → ℕ
x <<< k = x * 2 ^ k

abbrev pub ◌>>>◌ : ℕ → ℕ → ℕ
x >>> k = x / 2 ^ k

-- `a &^ b`: the bits that `a` and `b` share are taken out of `a`.
abbrev pub and_not : ℕ → ℕ → ℕ
and_not a b = a - bit_and a b

abbrev pub low_mask : ℕ → ℕ
low_mask k = 2 ^ k - 1

-- `binary.BigEndian.PutUint32` and `PutUint64` into a slice of that length.
unfoldable pub put_uint32 : ℕ → List ℕ
put_uint32 x = u8 (x >>> 24) ∷ u8 (x >>> 16) ∷ u8 (x >>> 8) ∷ u8 x ∷ []

unfoldable pub put_uint64 : ℕ → List ℕ
put_uint64 x =
    u8 (x >>> 56)
    ∷ u8 (x >>> 48)
    ∷ u8 (x >>> 40)
    ∷ u8 (x >>> 32)
    ∷ u8 (x >>> 24)
    ∷ u8 (x >>> 16)
    ∷ u8 (x >>> 8)
    ∷ u8 x
    ∷ []

-- The number that bytes stand for, highest first, behind the number `high`.
abbrev pub big_endian_from : ℕ → List ℕ → ℕ
big_endian_from high [] = high
big_endian_from high (b ∷ bs) = big_endian_from (high * 256 + b) bs

abbrev pub big_endian : List ℕ → ℕ
big_endian bs = big_endian_from 0 bs

-- What a word of bytes stands for, and what `put_uint32` and `put_uint64` write, is one number.
pub big_endian-put_uint32 : (x : ℕ) → IsU32 x → big_endian (put_uint32 x) ≡ x
unfolding put_uint32
big_endian-put_uint32 x h = omega arith

pub big_endian-put_uint64 : (x : ℕ) → IsU64 x → big_endian (put_uint64 x) ≡ x
unfolding put_uint64
big_endian-put_uint64 x h = omega arith

-- Equality of byte strings.
unfoldable pub same_bytes : List ℕ → List ℕ → Bool
same_bytes [] [] = true
same_bytes (x ∷ xs) (y ∷ ys) = x == y && same_bytes xs ys
same_bytes _ _ = false

pub same_bytes-eq : (xs ys : List ℕ) → same_bytes xs ys ≡ true → xs ≡ ys
unfolding same_bytes
same_bytes-eq [] [] h = refl
same_bytes-eq [] (y ∷ ys) h = cc
same_bytes-eq (x ∷ xs) [] h = cc
same_bytes-eq (x ∷ xs) (y ∷ ys) h = ground (arith, same_bytes-eq xs ys)

pub same_bytes_self : (xs : List ℕ) → same_bytes xs xs ≡ true
unfolding same_bytes
same_bytes_self [] = refl
same_bytes_self (x ∷ xs) = ground (arith, same_bytes_self xs)
