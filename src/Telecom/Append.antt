-- ===== src/Telecom/Append.antt =====
-- `Append` for every kind: what it writes, and the options on which it writes nothing.
use randomizer.Base.{
  ℕ, zero, suc, ◌+◌, ◌-◌, ◌≤◌, ◌<◌, bit_and, ◌≡◌, refl, ap, ◌∙◌, inl, inr, some, List, [], ◌∷◌,
  ◌++◌, arith, Bool-cases, length, get_or, take, length-append, All, All-append, u8, IsU64, ◌>>>◌,
  Option-cases, Plenty, Gives, Plenty-suc, Gives-bind,
}
use mathlib.Core.List.{append_assoc}
use randomizer.Number.{bounded_from}
use randomizer.Number.Accepts.{bounded_from-Gives}
use randomizer.Base.Int.{ℤ, pos, negsuc}
use randomizer.Telecom.Codes.{country_codes}
use randomizer.Telecom.{
  TelecomKind, imei, imeisv, iccid, meid, unknown, TelecomOptions, append_random_digits,
  luhn_check_digit, append_tac, imeisv_behind, imei_behind, imei_of, imeisv_of, svn_refused,
  iccid_length, iin_refused, iccid_prefix, iccid_sized, uhex_digit, hex_digits, meid_of, append,
}
use randomizer.Telecom.Luhn.{IsDigit, IsLuhn}
use randomizer.Telecom.Digits.{IsGood, Extends, append_random_digits-Gives}
use randomizer.Telecom.Tac.{
  IsDigits, HasTac, Holds, append_tac-Gives, append_tac_rejects, country_codes-IsDigits,
}
use randomizer.Telecom.Options.{
  IinOk, IinFrom, DigitCount, IsHexDigit, Valid, IsIdentifier, svn_refused-SvnOk, iin_refused-IinOk,
  iccid_length-DigitCount,
}
use randomizer.Base.Bits.{bit_and_mask}
use randomizer.Telecom.Identifier.{Appended, checked, take_head, imei_of-Gives, imeisv_behind-Gives}

-- The prefix of an ICCID: the one given, or 89 and a country code.
iccid_prefix-Gives :
    (dst iin : List ℕ) (ws : List ℕ)
    → IinOk iin
    → All IsU64 ws
    → Plenty IsGood 2 ws
    → Gives IsGood 1 (Appended (λ s. IsDigits 3 7 s × IinFrom iin s) dst) (iccid_prefix dst iin ws)
unfolding iccid_prefix
iccid_prefix-Gives dst (c ∷ cs) ws ok hs live =
    ((c ∷ cs, refl, (ok.0, refl)), hs, Plenty-suc IsGood 1 ws live)
iccid_prefix-Gives dst [] [] ok hs live = absurd live
iccid_prefix-Gives dst [] (x ∷ ws) ok hs live =
    Gives-bind IsGood 1 1 (λ i. i < 95) _ (bounded_from x 95 ws) _
      (bounded_from-Gives IsGood 1 95 x ws (λ y g. g.2) (omega arith) (omega arith) hs.0 hs.1 live)
      (λ i rest h hr plenty.
        let code = country_codes-IsDigits i h in
        (
          (
            56 ∷ 57 ∷ get_or country_codes i [],
            append_assoc dst (56 ∷ 57 ∷ []) (get_or country_codes i []),
            (
              (omega (arith, code.0), omega (arith, code.1), (omega arith, (omega arith, code.2))),
              (i, h, refl),
            ),
          ),
          hr,
          plenty,
        ))

abbrev IsIccid : ℤ → List ℕ → List ℕ → Type 0
IsIccid size iin id =
    DigitCount size (length id)
    × All IsDigit id
    × IsLuhn id
    × ((prefix : List ℕ) × IinFrom iin prefix × (take (length prefix) id ≡ prefix))

iccid_sized-Gives :
    (dst iin : List ℕ) (size : ℤ) (n : ℕ) (ws : List ℕ)
    → DigitCount size n
    → (18 ≤ n) × (n ≤ 20)
    → IinOk iin
    → All IsU64 ws
    → Plenty IsGood 2 ws
    → Gives IsGood 0 (Appended (IsIccid size iin) dst) (iccid_sized dst iin (some n) ws)
unfolding iccid_sized
iccid_sized-Gives dst iin size n ws count range ok hs live = rw ((iin_refused-IinOk iin).1 ok) (
    Gives-bind IsGood 1 0 (Appended (λ s. IsDigits 3 7 s × IinFrom iin s) dst) _
      (iccid_prefix dst iin ws) _ (iccid_prefix-Gives dst iin ws ok hs live)
      (λ out rest h hr plenty.
        let (pre, out_eq, (pre_digits, from)) = h in
        let (at_least, at_most, digits) = pre_digits in
        let wanted = length dst + n - 1 - length out in
        let wanted_eq : wanted ≡ n - 1 - length pre =
          omega (arith, ap length out_eq, length-append dst pre) in
        Gives-bind IsGood 0 0 (Extends out wanted) _ (append_random_digits out wanted rest) _
          (append_random_digits-Gives 1 0 out wanted rest (omega (arith, wanted_eq, range)) hr
            plenty)
          (λ filled more ext hm enough.
            let (cs, filled_eq, cs_len, cs_digits) = ext in
            let done =
              checked dst (pre ++ cs) filled
                (filled_eq ∙ ap (λ o. o ++ cs) out_eq ∙ append_assoc dst pre cs)
                (All-append IsDigit pre cs digits cs_digits) in
            let len : length done.0 ≡ n =
              omega (arith, done.3, length-append pre cs, cs_len, wanted_eq, range, at_most) in
            (
              (
                done.0,
                done.1,
                (
                  rw len count,
                  done.4,
                  done.5,
                  (
                    pre,
                    from,
                    rw (done.2)
                        (take_head (length pre) pre cs (luhn_check_digit (pre ++ cs) ∷ []) refl),
                  ),
                ),
              ),
              hm,
              enough,
            ))))

uhex_digit-IsHexDigit : (v : ℕ) → v < 16 → IsHexDigit (uhex_digit v)
uhex_digit-IsHexDigit v h = ground arith

low_digit : (x : ℕ) → IsHexDigit (uhex_digit (bit_and x 0x0f))
low_digit x = uhex_digit-IsHexDigit (bit_and x 0x0f) (omega (arith, bit_and_mask 4 x))

hex_digits-IsHexDigit : (n x : ℕ) → (length (hex_digits n x) ≡ n) × All IsHexDigit (hex_digits n x)
unfolding hex_digits
hex_digits-IsHexDigit zero x = (refl, tt)
hex_digits-IsHexDigit (suc n) x =
    let t = hex_digits-IsHexDigit n (x >>> 4) in (omega (arith, t.0), (low_digit x, t.1))

-- The regional code is A0 at least.
regional_digit : (v : ℕ) → v < 0x60 → 65 ≤ uhex_digit (u8 (u8 v + 0xa0) >>> 4)
regional_digit v h =
    let ten : 10 ≤ u8 (u8 v + 0xa0) >>> 4 = omega arith in at_least (u8 (u8 v + 0xa0) >>> 4) ten
  where
    at_least : (d : ℕ) → 10 ≤ d → 65 ≤ uhex_digit d
    at_least d le = ground arith

meid_of-Gives :
    (dst ws : List ℕ)
    → All IsU64 ws
    → Plenty IsGood 1 ws
    → Gives IsGood 0
        (Appended (λ id. (length id ≡ 14) × All IsHexDigit id × (65 ≤ get_or id 0 0)) dst)
        (meid_of dst ws)
unfolding meid_of
meid_of-Gives dst [] hs live = absurd live
meid_of-Gives dst (x ∷ ws) hs live =
    Gives-bind IsGood 0 0 (λ v. v < 0x60) _ (bounded_from x 0x60 ws) _
      (bounded_from-Gives IsGood 0 0x60 x ws (λ y g. g.4) (omega arith) (omega arith) hs.0 hs.1
        live)
      (λ v rest h hr plenty.
        let r = u8 (u8 v + 0xa0) in
        let t = hex_digits-IsHexDigit 12 x in
        (
          (
            uhex_digit (u8 (u8 v + 0xa0) >>> 4)
                ∷ uhex_digit (bit_and (u8 (u8 v + 0xa0)) 0x0f)
                ∷ hex_digits 12 x,
            refl,
            (
              omega (arith, t.0),
              (uhex_digit-IsHexDigit (r >>> 4) (omega arith), (low_digit r, t.1)),
              regional_digit v h,
            ),
          ),
          hr,
          plenty,
        ))

-- How many words that no rejection throws away a kind takes at most.
abbrev pub words_for : TelecomKind → ℕ
words_for imei = 3
words_for imeisv = 4
words_for iccid = 2
words_for meid = 1
words_for unknown = 3

-- On valid options and enough good words `Append` returns `dst` with an identifier of the kind
-- behind it: of its length, of digits (hexadecimal ones for a MEID), with a valid Luhn check digit
-- where the kind has one, and with the code, version and prefix that the options give or ask for.
pub append-Gives :
    (dst : List ℕ) (kind : TelecomKind) (o : TelecomOptions) (ws : List ℕ)
    → Valid kind o
    → All IsU64 ws
    → Plenty IsGood (words_for kind) ws
    → Gives IsGood 0 (Appended (IsIdentifier kind o) dst) (append dst kind o ws)
unfolding append imeisv_of
append-Gives dst imei o ws ok hs live = imei_of-Gives dst o ws ok hs live
append-Gives dst unknown o ws ok hs live = imei_of-Gives dst o ws ok hs live
append-Gives dst imeisv o ws ok hs live = rw ((svn_refused-SvnOk o.svn).1 ok.0) (
    Gives-bind IsGood 2 0 (Holds (HasTac dst o.tac o.test)) _ (append_tac dst o.tac o.test ws) _
      (append_tac-Gives 2 dst o.tac o.test ws ok.1 hs live)
      (λ code rest h hr plenty.
        imeisv_behind-Gives dst o.tac o.svn o.test code rest h ok.0 hr plenty))
append-Gives dst iccid o ws ok hs live =
    let n = ok.0.0 in
    rw ((iccid_length-DigitCount o.size n).1 ok.0.1)
      (iccid_sized-Gives dst o.iin o.size n ws ok.0.1 (in_range o.size n ok.0.1) ok.1 hs live)
  where
    in_range : (z : ℤ) (n : ℕ) → DigitCount z n → (18 ≤ n) × (n ≤ 20)
    in_range (pos z) n h = omega arith
    in_range (negsuc z) n h = absurd h
append-Gives dst meid o ws ok hs live = meid_of-Gives dst ws hs live

-- On options that are not valid for the kind `Append` returns `dst` as it is, and draws no word.
pub append_rejects :
    (dst : List ℕ) (kind : TelecomKind) (o : TelecomOptions) (ws : List ℕ)
    → ¬ Valid kind o
    → append dst kind o ws ≡ some (dst, ws)
unfolding append imei_of imei_behind imeisv_of imeisv_behind iccid_sized
append_rejects dst imei o ws bad = rw (append_tac_rejects dst o.tac o.test ws bad) refl
append_rejects dst unknown o ws bad = rw (append_tac_rejects dst o.tac o.test ws bad) refl
append_rejects dst meid o ws bad = absurd (bad tt)
append_rejects dst imeisv o ws bad = elim (Bool-cases (svn_refused o.svn)) [
  | inl e ↦ rw e refl
  | inr e ↦
      rw (e, append_tac_rejects dst o.tac o.test ws (λ ok. bad ((svn_refused-SvnOk o.svn).0 e, ok)))
        refl
]
append_rejects dst iccid o ws bad = elim (Option-cases (iccid_length o.size)) [
  | inl e ↦ rw e refl
  | inr (n, e) ↦ elim (Bool-cases (iin_refused o.iin)) [
    | inl r ↦ rw (e, r) refl
    | inr r ↦
        absurd (bad ((n, (iccid_length-DigitCount o.size n).0 e), (iin_refused-IinOk o.iin).0 r))
  ]
]
