-- ===== src/Examples/Telecom.antt =====
-- telecom.go on concrete words and options.
use randomizer.Base.{
  ℕ, ◌≡◌, refl, inl, true, false, some, List, [], ◌∷◌, ◌++◌, arith, same_bytes, Gives,
}
use randomizer.Base.Int.{pos}
use randomizer.Telecom.{imei, imeisv, iccid, TelecomOptions, luhn_check_digit, append}
use randomizer.Telecom.Luhn.{IsLuhn, luhn_check_digit-IsLuhn}
use randomizer.Telecom.Digits.{IsGood}
use randomizer.Telecom.Options.{IsIdentifier}
use randomizer.Telecom.Identifier.{Appended}
use randomizer.Telecom.Append.{append-Gives, append_rejects}

abbrev seven_digits : List ℕ
seven_digits = 55 ∷ 57 ∷ 57 ∷ 50 ∷ 55 ∷ 51 ∷ 57 ∷ []

abbrev no_options : TelecomOptions
no_options = record { tac = []; svn = []; iin = []; size = pos 0; test = false }

abbrev bad_svn : TelecomOptions
bad_svn = record { tac = []; svn = 57 ∷ 57 ∷ []; iin = []; size = pos 0; test = false }

abbrev good_words : List ℕ
good_words = 1_000_000_000_000_000_001 ∷ 2_000_000_000_000_000_003 ∷ 7_000_000_000_000_000_005 ∷ []

known_digit : luhn_check_digit seven_digits ≡ 56
unfolding luhn_check_digit
known_digit = refl

test_range :
    append [] imei
      (record { tac = []; svn = []; iin = []; size = pos 0; test = true })
      (123456 ∷ 19_000_000_000_000_000_000 ∷ 654321 ∷ 5 ∷ [])
    ≡ some (48 ∷ 48 ∷ 49 ∷ 50 ∷ 51 ∷ 52 ∷ 53 ∷ 54 ∷ 54 ∷ 53 ∷ 52 ∷ 51 ∷ 50 ∷ 49 ∷ 53 ∷ [], 5 ∷ [])
unfolding append
test_range = refl

luhn_check_digit-IsLuhn_example : IsLuhn (seven_digits ++ (luhn_check_digit seven_digits ∷ []))
luhn_check_digit-IsLuhn_example = luhn_check_digit-IsLuhn seven_digits (omega arith)

append-Gives_example :
    Gives IsGood 0
      (Appended (IsIdentifier iccid no_options) (1 ∷ []))
      (append (1 ∷ []) iccid no_options good_words)
append-Gives_example =
    append-Gives (1 ∷ []) iccid no_options good_words ((19, inl (refl, refl)), tt) (omega arith)
      (inl (omega arith, inl (omega arith, tt)))

append_rejects_example : append (1 ∷ []) imeisv bad_svn good_words ≡ some (1 ∷ [], good_words)
unfolding same_bytes
append_rejects_example = append_rejects (1 ∷ []) imeisv bad_svn good_words (λ v. cc)
