-- ===== src/Word.antt =====
-- word.go: random strings without equal neighbours.
pub mod Custom
pub mod Skip
pub mod NoRepeat
pub mod Spec
pub mod Lives
pub mod Digits
pub mod Alphabets
pub mod Uniform
use randomizer.Base.{
  ℕ, zero, suc, ◌+◌, ◌-◌, ◌*◌, ◌/◌, ◌^◌, bit_and, Bool, ◌&&◌, Option, none, some, List, [], ◌∷◌,
  ◌++◌, ltb, ◌==◌, if◌then◌else◌, length, get_or, u8, u64, ◌<<<◌, Draw, pure, ◌>>=◌, ◌>>◌, sum64,
  codes,
}
use randomizer.Number.{mul_hi, mul_lo, threshold, bounded_from}

-- `unknown` is any alphabet beyond the declared ones.
pub data Alphabet : Type 0 where
  decimal hex_lower hex_upper octal lower_case upper_case : Alphabet
  alphabetic alphanumeric base32 base64_url unknown : Alphabet

unfoldable pub alphabet_data : Alphabet → List ℕ
alphabet_data decimal = codes "0123456789"
alphabet_data hex_lower = codes "0123456789abcdef"
alphabet_data hex_upper = codes "0123456789ABCDEF"
alphabet_data octal = codes "01234567"
alphabet_data lower_case = codes "abcdefghijklmnopqrstuvwxyz"
alphabet_data upper_case = codes "ABCDEFGHIJKLMNOPQRSTUVWXYZ"
alphabet_data alphabetic = codes "abcdefghijklmnopqrstuvwxyzABCDEFGHIJKLMNOPQRSTUVWXYZ"
alphabet_data alphanumeric = codes "0123456789abcdefghijklmnopqrstuvwxyzABCDEFGHIJKLMNOPQRSTUVWXYZ"
alphabet_data base32 = codes "ABCDEFGHIJKLMNOPQRSTUVWXYZ234567"
alphabet_data base64_url = codes "ABCDEFGHIJKLMNOPQRSTUVWXYZabcdefghijklmnopqrstuvwxyz0123456789-_"
alphabet_data unknown = codes "0123456789"

-- How many positions one word yields: `prod` is the base to the power `k`.
pub record BatchSpec : Type 0 where
  pub prod : ℕ
  pub k : ℕ

-- The loop that multiplies until the product leaves 64 bits, in at most `fuel` rounds.
unfoldable pub grow_batch : ℕ → ℕ → ℕ → ℕ → BatchSpec
grow_batch zero n prod k = record { prod = prod; k = k }
grow_batch (suc fuel) n prod k =
    let more = grow_batch fuel n (mul_lo prod n) (u8 (k + 1)) in
    if mul_hi prod n == 0 then more else record { prod = prod; k = k }

-- The loop that divides while too many words would be rejected.
unfoldable pub shrink_batch : ℕ → ℕ → ℕ → ℕ → BatchSpec
unfolding threshold
shrink_batch zero n prod k = record { prod = prod; k = k }
shrink_batch (suc fuel) n prod k =
    let less = shrink_batch fuel n (prod / n) (k - 1) in
    if ltb 1 k && ltb (1 <<< 60) (threshold prod) then less else record { prod = prod; k = k }

-- Each round at least doubles the product, so that 64 rounds are enough for either loop.
unfoldable pub new_batch_spec : ℕ → BatchSpec
new_batch_spec n =
    if ltb n 2
    then record { prod = 1; k = 64 }
    else (let grown = grow_batch 64 n 1 0 in shrink_batch 64 n grown.prod grown.k)

-- An arithmetic shift of an `int64` by 63, on its bits: the sign in every place.
abbrev pub sign_fill : ℕ → ℕ
sign_fill y = if ltb y (2 ^ 63) then 0 else 2 ^ 64 - 1

unfoldable pub skip_past : ℕ → ℕ → ℕ
skip_past idx last_idx = bit_and (sign_fill (u64 (last_idx + 2 * 2 ^ 64 - 1 - idx))) 1

-- What the draws from one word leave: the symbols that were written, and the loop's variables.
pub record Batch : Type 0 where
  pub out : List ℕ
  pub lo : ℕ
  pub prod : ℕ
  pub last : ℕ
  pub last_idx : ℕ

abbrev pub write : ℕ → Batch → Batch
write c b = record {
  out = c ∷ b.out;
  lo = b.lo;
  prod = b.prod;
  last = b.last;
  last_idx = b.last_idx;
}

-- The draws from one word, `draws` of them at most, while there is room: `n1` is one less than the
-- number of positions.
unfoldable pub draw_batch : List ℕ → ℕ → ℕ → ℕ → ℕ → ℕ → ℕ → ℕ → Batch
unfolding skip_past
draw_batch dict n1 zero room lo prod last last_idx = record {
  out = [];
  lo = lo;
  prod = prod;
  last = last;
  last_idx = last_idx;
}
draw_batch dict n1 (suc draws) zero lo prod last last_idx = record {
  out = [];
  lo = lo;
  prod = prod;
  last = last;
  last_idx = last_idx;
}
draw_batch dict n1 (suc draws) (suc room) lo prod last last_idx =
    let idx = mul_hi lo n1 + skip_past (mul_hi lo n1) last_idx in
    let c = get_or dict idx 0 in
    let kept = draw_batch dict n1 draws (suc room) (mul_lo lo n1) (u64 (prod * n1)) last last_idx in
    let written = write c (draw_batch dict n1 draws room (mul_lo lo n1) (u64 (prod * n1)) c idx) in
    if c == last then kept else written

abbrev pub rejected : Batch → Bool
rejected b = ltb b.lo b.prod && ltb b.lo (threshold b.prod)

abbrev pub prepend : List ℕ → Option (List ℕ × List ℕ) → Option (List ℕ × List ℕ)
prepend out none = none
prepend out (some (more, ws)) = some (out ++ more, ws)

-- The loop over words that fills the `room` bytes left, from the state before the first of them.
unfoldable pub fill_batches : List ℕ → ℕ → ℕ → ℕ → ℕ → ℕ → Draw (List ℕ)
unfolding draw_batch threshold
fill_batches dict n1 batch zero last last_idx ws = some ([], ws)
fill_batches dict n1 batch (suc room) last last_idx [] = none
fill_batches dict n1 batch (suc room) last last_idx (w ∷ ws) =
    let b = draw_batch dict n1 batch (suc room) w 1 last last_idx in
    let redrawn = fill_batches dict n1 batch (suc room) last last_idx ws in
    let filled =
      prepend b.out (fill_batches dict n1 batch (suc room - length b.out) b.last b.last_idx ws) in
    if rejected b then redrawn else filled

-- The bytes behind the first, which are written unless there is no position to choose.
pub fill_behind : List ℕ → List ℕ → ℕ → Draw (List ℕ)
unfolding fill_batches new_batch_spec
fill_behind buffer dict last_idx =
    if ltb (length dict) 2
    then pure buffer
    else fill_batches dict (length dict - 1) (new_batch_spec (length dict - 1)).k (length buffer)
        (get_or dict last_idx 0) last_idx

-- `out` is what the buffer holds before the call.
unfoldable pub fill_batched_no_repeat : List ℕ → List ℕ → Draw (List ℕ)
unfolding fill_behind bounded_from
fill_batched_no_repeat [] dict = pure []
fill_batched_no_repeat (_ ∷ buffer) dict = do
  x ← sum64
  i ← bounded_from x (length dict)
  rest ← fill_behind buffer dict i
  pure (get_or dict i 0 ∷ rest)
