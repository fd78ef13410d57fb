-- ===== src/Word/Custom.antt =====
-- word.go: dictionaries of the caller, and the entry points.
pub mod Result
pub mod Outcome
pub mod Ends
use randomizer.Base.{
  ℕ, zero, suc, ◌+◌, ◌-◌, Bool, true, false, ◌&&◌, not, none, some, List, [], ◌∷◌, ◌++◌, ltb, leb,
  ◌==◌, if◌then◌else◌, length, get_or, take, replicate, Draw, pure, bind_result, ◌>>=◌, ◌>>◌, sum64,
}
use randomizer.Base.Int.{ℤ, pos, negsuc}
use randomizer.Number.{bounded_from}
use randomizer.Word.{Alphabet, alphabet_data, skip_past, fill_batched_no_repeat, prepend}

-- `fillWideNoRepeat` behind its first byte, in at most `fuel` rounds; `none` also where the fuel
-- runs out.
unfoldable pub wide_rounds : ℕ → List ℕ → ℕ → ℕ → ℕ → Draw (List ℕ)
unfolding bounded_from skip_past
wide_rounds fuel dict zero last last_idx ws = some ([], ws)
wide_rounds zero dict (suc room) last last_idx ws = none
wide_rounds (suc fuel) dict (suc room) last last_idx ws = bind_result (sum64 ws) (λ x.
    bounded_from x (length dict - 1) >>= λ h behind.
    let idx = h + skip_past h last_idx in
    let c = get_or dict idx 0 in
    let again = wide_rounds fuel dict (suc room) last last_idx behind in
    let on = prepend (c ∷ []) (wide_rounds fuel dict room c idx behind) in
    if c == last then again else on)

-- Every round takes a word, so that a round for each word is enough.
unfoldable pub wide_behind : List ℕ → ℕ → ℕ → Draw (List ℕ)
unfolding wide_rounds
wide_behind dict room last_idx ws =
    wide_rounds (length ws) dict room (get_or dict last_idx 0) last_idx ws

unfoldable pub fill_wide_no_repeat : List ℕ → List ℕ → Draw (List ℕ)
unfolding wide_behind bounded_from
fill_wide_no_repeat [] dict = pure []
fill_wide_no_repeat (_ ∷ buffer) dict = do
  x ← sum64
  i ← bounded_from x (length dict)
  rest ← wide_behind dict (length buffer) i
  pure (get_or dict i 0 ∷ rest)

-- Whether a byte differs from `first`: the search of `appendCustom`.
unfoldable pub has_other : ℕ → List ℕ → Bool
has_other first [] = false
has_other first (c ∷ cs) = if c == first then has_other first cs else true

-- `slices.Grow`: the bytes behind `dst` that the grown slice shows; `spare` is what lies between
-- the length of `dst` and its capacity.
abbrev pub grown : List ℕ → ℕ → List ℕ
grown spare n = if ltb (length spare) n then replicate n 0 else take n spare

unfoldable pub fill_custom : List ℕ → List ℕ → Draw (List ℕ)
unfolding fill_batched_no_repeat fill_wide_no_repeat
fill_custom buffer dictionary =
    if leb (length dictionary) 256
    then fill_batched_no_repeat buffer dictionary
    else fill_wide_no_repeat buffer dictionary

-- The dictionaries that cannot serve a length above one are left out before any word is drawn.
unfoldable pub append_sized : List ℕ → List ℕ → List ℕ → ℕ → Draw (List ℕ)
unfolding has_other fill_custom
append_sized dst spare [] n = pure dst
append_sized dst spare (first ∷ others) n =
    if ltb 1 n && not (has_other first others)
    then pure dst
    else (do out ← fill_custom (grown spare n) (first ∷ others); pure (dst ++ out))

unfoldable pub append_custom : List ℕ → List ℕ → List ℕ → ℤ → Draw (List ℕ)
unfolding append_sized
append_custom dst spare dictionary (negsuc n) = pure dst
append_custom dst spare dictionary (pos zero) = pure dst
append_custom dst spare dictionary (pos (suc n)) = append_sized dst spare dictionary (suc n)

-- `Custom`, `CustomFromBytes`, `CustomBytes` and `CustomBytesFromString`: the nil slice is empty.
unfoldable pub custom : List ℕ → ℤ → Draw (List ℕ)
unfolding append_custom
custom dictionary size = append_custom [] [] dictionary size

-- `Bytes` and `String`.
unfoldable pub bytes : Alphabet → ℤ → Draw (List ℕ)
bytes kind (negsuc n) = pure []
bytes kind (pos zero) = pure []
bytes kind (pos (suc n)) = fill_batched_no_repeat (replicate (suc n) 0) (alphabet_data kind)

unfoldable pub append_word : List ℕ → List ℕ → Alphabet → ℤ → Draw (List ℕ)
append_word dst spare kind (negsuc n) = pure dst
append_word dst spare kind (pos zero) = pure dst
append_word dst spare kind (pos (suc n)) = do
  out ← fill_batched_no_repeat (grown spare (suc n)) (alphabet_data kind)
  pure (dst ++ out)
