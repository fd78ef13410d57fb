-- ===== src/Telecom/Options.antt =====
-- The options that each kind of identifier accepts, and what they ask of the identifier.
use randomizer.Base.{
  ℕ, ◌+◌, ◌/◌, ◌%◌, ◌≤◌, ◌<◌, ◌≡◌, refl, ◌↔◌, ◌⊎◌, Bool, false, some, List, [], ◌∷◌, arith, length,
  get_or, take, drop, All, same_bytes,
}
use randomizer.Base.Int.{ℤ, pos, negsuc}
use randomizer.Telecom.Codes.{country_codes}
use randomizer.Telecom.{
  TelecomKind, imei, imeisv, iccid, meid, unknown, TelecomOptions, svn_refused, iccid_length,
  iin_refused,
}
use randomizer.Telecom.Luhn.{IsDigit, IsLuhn}
use randomizer.Telecom.Tac.{IsDigits, is_digits-IsDigits, TacFrom, TacOk}

-- Two digits other than 99.
abbrev pub SvnOk : List ℕ → Type 0
SvnOk [] = Unit {0}
SvnOk (c ∷ cs) = IsDigits 2 2 (c ∷ cs) × (same_bytes (c ∷ cs) (57 ∷ 57 ∷ []) ≡ false)

abbrev pub SvnFrom : List ℕ → List ℕ → Type 0
SvnFrom [] s = (v : ℕ) × (v < 99) × (s ≡ (48 + v / 10) ∷ (48 + v % 10) ∷ [])
SvnFrom (c ∷ cs) s = s ≡ c ∷ cs

-- 89 and one to five digits more.
abbrev pub IinOk : List ℕ → Type 0
IinOk [] = Unit {0}
IinOk (c ∷ cs) = IsDigits 3 7 (c ∷ cs) × (c ≡ 56) × (get_or cs 0 0 ≡ 57)

abbrev pub IinFrom : List ℕ → List ℕ → Type 0
IinFrom [] s = (i : ℕ) × (i < 95) × (s ≡ 56 ∷ 57 ∷ get_or country_codes i [])
IinFrom (c ∷ cs) s = s ≡ c ∷ cs

-- 19 digits by default, 18 to 20 on request.
abbrev pub DigitCount : ℤ → ℕ → Type 0
DigitCount (pos z) n = (z ≡ 0) × (n ≡ 19) ⊎ (z ≡ n) × (18 ≤ n) × (n ≤ 20)
DigitCount (negsuc z) n = ⊥

abbrev pub IsHexDigit : ℕ → Type 0
IsHexDigit c = IsDigit c ⊎ (65 ≤ c) × (c ≤ 70)

abbrev pub Valid : TelecomKind → TelecomOptions → Type 0
Valid imei o = TacOk o.tac
Valid imeisv o = SvnOk o.svn × TacOk o.tac
Valid iccid o = ((n : ℕ) × DigitCount o.size n) × IinOk o.iin
Valid meid o = Unit {0}
Valid unknown o = TacOk o.tac

-- The first of them is shared by the default kind.
abbrev pub IsImei : List ℕ → Bool → List ℕ → Type 0
IsImei tac test id = (length id ≡ 15) × All IsDigit id × IsLuhn id × TacFrom tac test (take 8 id)

-- What an identifier of the kind is.
abbrev pub IsIdentifier : TelecomKind → TelecomOptions → List ℕ → Type 0
IsIdentifier imei o id = IsImei o.tac o.test id
IsIdentifier unknown o id = IsImei o.tac o.test id
IsIdentifier imeisv o id =
    (length id ≡ 16)
    × All IsDigit id
    × TacFrom o.tac o.test (take 8 id)
    × SvnFrom o.svn (drop 14 id)
IsIdentifier iccid o id =
    DigitCount o.size (length id)
    × All IsDigit id
    × IsLuhn id
    × ((prefix : List ℕ) × IinFrom o.iin prefix × (take (length prefix) id ≡ prefix))
IsIdentifier meid o id = (length id ≡ 14) × All IsHexDigit id × (65 ≤ get_or id 0 0)

pub svn_refused-SvnOk : (svn : List ℕ) → (svn_refused svn ≡ false) ↔ SvnOk svn
unfolding svn_refused
svn_refused-SvnOk [] = (λ e. tt, λ h. ground arith)
svn_refused-SvnOk (c ∷ cs) =
    let digits = is_digits-IsDigits (c ∷ cs) 2 2 in
    (λ e. ground (arith, digits), λ h. rw (digits.1 h.0, h.1) refl)

pub iin_refused-IinOk : (iin : List ℕ) → (iin_refused iin ≡ false) ↔ IinOk iin
unfolding iin_refused
iin_refused-IinOk [] = (λ e. tt, λ h. refl)
iin_refused-IinOk (c ∷ []) =
    let digits = is_digits-IsDigits (c ∷ []) 3 7 in
    (λ e. ground (arith, digits), λ h. absurd (omega (arith, h.0)))
iin_refused-IinOk (c ∷ d ∷ cs) =
    let digits = is_digits-IsDigits (c ∷ d ∷ cs) 3 7 in
    (λ e. ground (arith, digits), λ h. rw (digits.1 h.0, h.1, h.2) refl)

pub iccid_length-DigitCount : (z : ℤ) (n : ℕ) → (iccid_length z ≡ some n) ↔ DigitCount z n
unfolding iccid_length
iccid_length-DigitCount (negsuc m) n = (λ e. cc, λ h. absurd h)
iccid_length-DigitCount (pos m) n = (λ e. ground arith, λ h. ground arith)
