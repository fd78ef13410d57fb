-- ===== src/Word/Alphabets/Table.antt =====
-- The built-in alphabets repeat no symbol: `Bytes`, `String` and `Append` end.
use randomizer.Base.{
  ℕ, suc, ◌-◌, ◌*◌, ◌^◌, ◌≤◌, ◌<◌, ◌≡◌, refl, Bool, true, Option, List, ◌++◌, arith, ◌==◌,
  if◌then◌else◌, ==_iff, holds_below, holds_below_each, length, get_or, replicate, length-replicate,
  All, IsU64, pure, bind_result, Returns, Returns-bind, Plenty,
}
use randomizer.Base.Int.{pos}
use randomizer.Word.{new_batch_spec, fill_batched_no_repeat, Alphabet, alphabet_data}
use randomizer.Word.Custom.{grown, bytes, append_word}
use randomizer.Word.Custom.Result.{Extends, length-grown}
use randomizer.Word.NoRepeat.{IsString}
use randomizer.Word.Digits.{RepeatFree}
use randomizer.Word.Alphabets.{Serviceable, fill_batched-Returns}
use randomizer.Word.{
  decimal, hex_lower, hex_upper, octal, lower_case, upper_case, alphabetic, alphanumeric, base32,
  base64_url, unknown,
}

repeats_checked : List ℕ → Bool
unfolding holds_below
repeats_checked dict =
    holds_below
      (λ i.
        holds_below (λ j. if get_or dict i 0 == get_or dict j 0 then i == j else true)
          (length dict))
      (length dict)

repeats_checked-RepeatFree : (dict : List ℕ) → repeats_checked dict ≡ true → RepeatFree dict
unfolding repeats_checked
repeats_checked-RepeatFree dict run i j hi hj same =
    let row = holds_below_each _ (length dict) run i hi in
    let cell = holds_below_each _ (length dict) row j hj in
    (==_iff i j).0 (rw (same, (==_iff (get_or dict j 0) (get_or dict j 0)).1 refl) at cell)

-- Every alphabet has at least two symbols and repeats none.
pub alphabet_data-RepeatFree :
    (kind : Alphabet)
    → (2 ≤ length (alphabet_data kind))
      × (length (alphabet_data kind) < 2 ^ 63)
      × RepeatFree (alphabet_data kind)
unfolding alphabet_data repeats_checked
alphabet_data-RepeatFree decimal =
    (omega arith, omega arith, repeats_checked-RepeatFree (alphabet_data decimal) refl)
alphabet_data-RepeatFree hex_lower =
    (omega arith, omega arith, repeats_checked-RepeatFree (alphabet_data hex_lower) refl)
alphabet_data-RepeatFree hex_upper =
    (omega arith, omega arith, repeats_checked-RepeatFree (alphabet_data hex_upper) refl)
alphabet_data-RepeatFree octal =
    (omega arith, omega arith, repeats_checked-RepeatFree (alphabet_data octal) refl)
alphabet_data-RepeatFree lower_case =
    (omega arith, omega arith, repeats_checked-RepeatFree (alphabet_data lower_case) refl)
alphabet_data-RepeatFree upper_case =
    (omega arith, omega arith, repeats_checked-RepeatFree (alphabet_data upper_case) refl)
alphabet_data-RepeatFree alphabetic =
    (omega arith, omega arith, repeats_checked-RepeatFree (alphabet_data alphabetic) refl)
alphabet_data-RepeatFree alphanumeric =
    (omega arith, omega arith, repeats_checked-RepeatFree (alphabet_data alphanumeric) refl)
alphabet_data-RepeatFree base32 =
    (omega arith, omega arith, repeats_checked-RepeatFree (alphabet_data base32) refl)
alphabet_data-RepeatFree base64_url =
    (omega arith, omega arith, repeats_checked-RepeatFree (alphabet_data base64_url) refl)
alphabet_data-RepeatFree unknown =
    (omega arith, omega arith, repeats_checked-RepeatFree (alphabet_data unknown) refl)

Extends-bind :
    (dst dict : List ℕ) (n : ℕ) (r : Option (List ℕ × List ℕ))
    → Returns (IsString dict n) r
    → Returns (Extends dst dict n) (bind_result r (λ out. pure (dst ++ out)))
Extends-bind dst dict n r h =
    Returns-bind (IsString dict n) (Extends dst dict n) r _ h (λ s ws ok hs. ((s, refl, ok), hs))

-- For a length n of at least 1 and an alphabet of a symbols, where k is the batch for a - 1, let the
-- words hold 1 + m that neither the first draw nor any batch of up to k draws rejects, with
-- n <= 1 + m * k. Then Bytes returns n symbols of the alphabet of which no two neighbours are equal,
-- and Append such symbols behind dst, whatever else the words are.
pub word-Returns :
    (dst spare : List ℕ) (kind : Alphabet) (n m : ℕ) (ws : List ℕ)
    → suc n ≤ suc (m * (new_batch_spec (length (alphabet_data kind) - 1)).k)
    → All IsU64 ws
    → Plenty (Serviceable (length (alphabet_data kind))) (suc m) ws
    → Returns (IsString (alphabet_data kind) (suc n)) (bytes kind (pos (suc n)) ws)
      × Returns
          (Extends dst (alphabet_data kind) (suc n))
          (append_word dst spare kind (pos (suc n)) ws)
unfolding bytes append_word
word-Returns dst spare kind n m ws le hs live = (
  over (replicate (suc n) 0) (length-replicate {A = ℕ} (suc n) 0),
  Extends-bind dst (alphabet_data kind) (suc n)
      (fill_batched_no_repeat (grown spare (suc n)) (alphabet_data kind) ws)
      (over (grown spare (suc n)) (length-grown spare (suc n))),
)
  where
    over :
        (buffer : List ℕ)
        → length buffer ≡ suc n
        → Returns
            (IsString (alphabet_data kind) (suc n))
            (fill_batched_no_repeat buffer (alphabet_data kind) ws)
    over buffer e =
        let (several, few, free) = alphabet_data-RepeatFree kind in
        rw e at (
          fill_batched-Returns (alphabet_data kind) several few free m buffer ws (omega arith) hs
            live)
