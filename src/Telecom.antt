-- ===== src/Telecom.antt =====
-- telecom.go: mobile equipment and subscriber identifiers, as strings of ASCII bytes.
pub mod Codes
pub mod Luhn
pub mod Digits
pub mod Tac
pub mod Options
pub mod Identifier
pub mod Append
use randomizer.Base.{
  ℕ, zero, suc, ◌+◌, ◌-◌, ◌*◌, ◌/◌, ◌%◌, min, bit_and, Bool, true, false, ◌||◌, not, Option, none,
  some, List, [], ◌∷◌, ◌++◌, ltb, leb, ◌==◌, if◌then◌else◌, length, get_or, drop, u8, ◌>>>◌,
  same_bytes, Draw, pure, ◌>>=◌, ◌>>◌, sum64, draw_until,
}
use mathlib.Core.List.{reverse}
use randomizer.Base.Int.{ℤ, pos, negsuc}
use randomizer.Telecom.Codes.{reporting_body_ids, country_codes}
use randomizer.Number.{bounded_from}

-- `unknown` is any kind beyond the declared ones.
pub data TelecomKind : Type 0 where
  imei imeisv iccid meid unknown : TelecomKind

pub record TelecomOptions : Type 0 where
  pub tac : List ℕ
  pub svn : List ℕ
  pub iin : List ℕ
  pub size : ℤ
  pub test : Bool

-- `uhexdict`
abbrev uhex_digit : ℕ → ℕ
uhex_digit v = if ltb v 10 then 48 + v else 55 + v

all_digits : List ℕ → Bool
all_digits [] = true
all_digits (c ∷ cs) = if ltb c 48 || ltb 57 c then false else all_digits cs

unfoldable pub is_digits : List ℕ → ℕ → ℕ → Bool
unfolding all_digits
is_digits s min_len max_len =
    if ltb (length s) min_len || ltb max_len (length s) then false else all_digits s

-- The inner loop of `appendRandomDigits`: `n` digits of `x`, the last one written first.
unfoldable pub put_digits : ℕ → ℕ → List ℕ
put_digits zero x = []
put_digits (suc n) x = put_digits n (x / 10) ++ ((48 + u8 (x % 10)) ∷ [])

-- The words that the rejection loop accepts, reduced.
unfoldable pub digit_word : ℕ → Option ℕ
digit_word x =
    if leb 18_000_000_000_000_000_000 x then none else some (x % 1_000_000_000_000_000_000)

-- The outer loop in at most `rounds` rounds.
unfoldable pub digit_rounds : ℕ → List ℕ → ℕ → Draw (List ℕ)
unfolding put_digits digit_word draw_until
digit_rounds zero dst n = pure dst
digit_rounds (suc rounds) dst zero = pure dst
digit_rounds (suc rounds) dst (suc n) = do
  w ← sum64
  x ← draw_until digit_word w
  digit_rounds rounds (dst ++ put_digits (min (suc n) 18) x) (suc n - min (suc n) 18)

-- Every round takes a digit at least, so that `n` rounds are enough.
unfoldable pub append_random_digits : List ℕ → ℕ → Draw (List ℕ)
unfolding digit_rounds
append_random_digits dst n = digit_rounds n dst n

abbrev pub append_two_digits : List ℕ → ℕ → List ℕ
append_two_digits dst v = dst ++ (u8 (48 + v / 10) ∷ u8 (48 + v % 10) ∷ [])

-- `slices.Backward`: the loop runs over the reversed payload.
abbrev pub luhn_term : Bool → ℕ → ℕ
luhn_term double v = if double then (let w = v * 2 in if ltb 9 w then w - 9 else w) else v

unfoldable pub luhn_loop : ℕ → Bool → List ℕ → ℕ
luhn_loop sum double [] = sum
luhn_loop sum double (p ∷ ps) =
    luhn_loop (sum + luhn_term double (u8 (p + 256 - 48))) (not double) ps

unfoldable pub luhn_check_digit : List ℕ → ℕ
unfolding luhn_loop
luhn_check_digit payload = u8 (48 + (10 - luhn_loop 0 true (reverse payload) % 10) % 10)

-- Whether an option is left empty.
abbrev pub is_empty : List ℕ → Bool
is_empty [] = true
is_empty (_ ∷ _) = false

random_tac : List ℕ → Bool → Draw (List ℕ)
unfolding append_random_digits bounded_from
random_tac dst true = append_random_digits (dst ++ (48 ∷ 48 ∷ [])) 6
random_tac dst false = do
  x ← sum64
  i ← bounded_from x 14
  append_random_digits (dst ++ get_or reporting_body_ids i []) 6

-- `appendTAC` on the fields that it reads; `none` where the code reports that they are invalid.
unfoldable pub append_tac : List ℕ → List ℕ → Bool → Draw (Option (List ℕ))
unfolding is_digits random_tac
append_tac dst tac test =
    if is_empty tac
    then (do out ← random_tac dst test; pure (some out))
    else if is_digits tac 8 8
    then pure (some (dst ++ tac))
    else pure none

-- The test of `IMEISV` on the software version.
unfoldable pub svn_refused : List ℕ → Bool
unfolding is_digits same_bytes
svn_refused svn =
    if not (is_digits svn 2 2) || same_bytes svn (57 ∷ 57 ∷ []) then not (is_empty svn) else false

append_svn : List ℕ → List ℕ → Draw (List ℕ)
unfolding bounded_from
append_svn out svn =
    if is_empty svn
    then (do x ← sum64; v ← bounded_from x 99; pure (append_two_digits out (u8 v)))
    else pure (out ++ svn)

-- `IMEISV` and `IMEI` behind `appendTAC`.
pub imeisv_behind : List ℕ → List ℕ → Option (List ℕ) → Draw (List ℕ)
unfolding append_random_digits append_svn
imeisv_behind dst svn none = pure dst
imeisv_behind dst svn (some out) = do filled ← append_random_digits out 6; append_svn filled svn

pub imei_behind : List ℕ → Option (List ℕ) → Draw (List ℕ)
unfolding append_random_digits luhn_check_digit
imei_behind dst none = pure dst
imei_behind dst (some out) = do
  filled ← append_random_digits out 6
  pure (filled ++ (luhn_check_digit (drop (length dst) filled) ∷ []))

pub imei_of : List ℕ → TelecomOptions → Draw (List ℕ)
unfolding append_tac imei_behind
imei_of dst options = do tac ← append_tac dst options.tac options.test; imei_behind dst tac

pub imeisv_of : List ℕ → TelecomOptions → Draw (List ℕ)
unfolding append_tac imeisv_behind svn_refused
imeisv_of dst options =
    if svn_refused options.svn
    then pure dst
    else (do tac ← append_tac dst options.tac options.test; imeisv_behind dst options.svn tac)

-- The digit count of an ICCID, `none` where it is refused.
unfoldable pub iccid_length : ℤ → Option ℕ
iccid_length (negsuc n) = none
iccid_length (pos n) =
    let size = if n == 0 then 19 else n in if ltb size 18 || ltb 20 size then none else some size

unfoldable pub iin_refused : List ℕ → Bool
unfolding is_digits
iin_refused iin =
    if is_empty iin
    then false
    else not (is_digits iin 3 7) || not (get_or iin 0 0 == 56) || not (get_or iin 1 0 == 57)

iccid_prefix : List ℕ → List ℕ → Draw (List ℕ)
unfolding bounded_from
iccid_prefix dst iin =
    if is_empty iin
    then (do
      x ← sum64
      i ← bounded_from x 95
      pure (dst ++ (56 ∷ 57 ∷ []) ++ get_or country_codes i []))
    else pure (dst ++ iin)

pub iccid_sized : List ℕ → List ℕ → Option ℕ → Draw (List ℕ)
unfolding iccid_prefix append_random_digits luhn_check_digit iin_refused
iccid_sized dst iin none = pure dst
iccid_sized dst iin (some size) = if iin_refused iin then pure dst else (do
  out ← iccid_prefix dst iin
  filled ← append_random_digits out (length dst + size - 1 - length out)
  pure (filled ++ (luhn_check_digit (drop (length dst) filled) ∷ [])))

-- The loop of `MEID`: the digits of `x` from the lowest on.
unfoldable pub hex_digits : ℕ → ℕ → List ℕ
hex_digits zero x = []
hex_digits (suc n) x = uhex_digit (bit_and x 0x0f) ∷ hex_digits n (x >>> 4)

pub meid_of : List ℕ → Draw (List ℕ)
unfolding bounded_from hex_digits
meid_of dst = do
  x ← sum64
  v ← bounded_from x 0x60
  pure (
      dst
      ++ (uhex_digit (u8 (u8 v + 0xa0) >>> 4)
          ∷ uhex_digit (bit_and (u8 (u8 v + 0xa0)) 0x0f)
          ∷ hex_digits 12 x))

unfoldable pub append : List ℕ → TelecomKind → TelecomOptions → Draw (List ℕ)
unfolding imei_of imeisv_of iccid_sized iccid_length meid_of
append dst imeisv options = imeisv_of dst options
append dst iccid options = iccid_sized dst options.iin (iccid_length options.size)
append dst meid options = meid_of dst
append dst imei options = imei_of dst options
append dst unknown options = imei_of dst options

-- `String`: the identifier itself, empty on invalid options.
unfoldable pub string : TelecomKind → TelecomOptions → Draw (List ℕ)
unfolding append
string kind options = append [] kind options
