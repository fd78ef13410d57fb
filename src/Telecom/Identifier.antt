-- ===== src/Telecom/Identifier.antt =====
-- `Append` and `String`: what they write for every kind and all options.
use randomizer.Base.{
  ℕ, ◌+◌, ◌/◌, ◌%◌, ◌<◌, ◌≡◌, refl, ap, ◌∙◌, Bool, Option, none, some, List, [], ◌∷◌, ◌++◌, arith,
  length, take, drop, length-append, drop-append, take_prefix, drop_prefix, All, All-append, u8,
  IsU64, Plenty, Gives, Gives-bind, Gives-weaken,
}
use mathlib.Core.List.{append_assoc}
use mathlib.Core.Path.{ap₂}
use randomizer.Number.{bounded_from}
use randomizer.Number.Accepts.{bounded_from-Gives}
use randomizer.Telecom.{
  TelecomOptions, append_random_digits, append_two_digits, luhn_check_digit, append_tac, append_svn,
  imeisv_behind, imei_behind, imei_of,
}
use randomizer.Telecom.Luhn.{IsDigit, IsLuhn, luhn_check_digit-IsDigit, luhn_check_digit-IsLuhn}
use randomizer.Telecom.Digits.{IsGood, Extends, append_random_digits-Gives}
use randomizer.Telecom.Tac.{TacFrom, TacOk, HasTac, Holds, append_tac-Gives}
use randomizer.Telecom.Options.{SvnOk, SvnFrom, IsImei}

-- `out` is `dst` with a string behind it that satisfies `P`.
abbrev pub Appended : (List ℕ → Type 0) → List ℕ → List ℕ → Type 0
Appended P dst out = (id : List ℕ) × (out ≡ dst ++ id) × P id

-- A string with its check digit.
pub checked :
    (dst payload filled : List ℕ)
    → filled ≡ dst ++ payload
    → All IsDigit payload
    → (id : List ℕ) × (filled ++ (luhn_check_digit (drop (length dst) filled) ∷ []) ≡ dst ++ id)
      × (id ≡ payload ++ (luhn_check_digit payload ∷ []))
      × (length id ≡ length payload + 1)
      × All IsDigit id
      × IsLuhn id
checked dst payload filled e h =
    let c = luhn_check_digit payload in
    (
      payload ++ (c ∷ []),
      ap₂ (λ a b. a ++ (luhn_check_digit b ∷ [])) e
            (ap (drop (length dst)) e ∙ drop-append dst payload)
          ∙ append_assoc dst payload (c ∷ []),
      refl,
      omega (arith, length-append payload (c ∷ [])),
      All-append IsDigit payload (c ∷ []) h (luhn_check_digit-IsDigit payload, tt),
      luhn_check_digit-IsLuhn payload h,
    )

-- What stands in front of a string that is extended twice.
pub take_head : (n : ℕ) (t cs u : List ℕ) → length t ≡ n → take n (t ++ cs ++ u) ≡ t
take_head n t cs u e = ap (take n) (append_assoc t cs u) ∙ take_prefix n t (cs ++ u) e

imei_behind-Gives :
    (dst tac : List ℕ) (test : Bool) (code : Option (List ℕ)) (ws : List ℕ)
    → Holds (HasTac dst tac test) code
    → All IsU64 ws
    → Plenty IsGood 1 ws
    → Gives IsGood 0 (Appended (IsImei tac test) dst) (imei_behind dst code ws)
unfolding imei_behind
imei_behind-Gives dst tac test none ws h hs live = absurd h
imei_behind-Gives dst tac test (some out) ws h hs live =
    Gives-bind IsGood 0 0 (Extends out 6) _ (append_random_digits out 6 ws) _
      (append_random_digits-Gives 1 0 out 6 ws (omega arith) hs live)
      (λ filled rest ext hr plenty.
        let (t, out_eq, t_len, t_digits, from) = h in
        let (cs, filled_eq, cs_len, cs_digits) = ext in
        let done =
          checked dst (t ++ cs) filled
            (filled_eq ∙ ap (λ o. o ++ cs) out_eq ∙ append_assoc dst t cs)
            (All-append IsDigit t cs t_digits cs_digits) in
        (
          (
            done.0,
            done.1,
            (
              omega (arith, done.3, length-append t cs, t_len, cs_len),
              done.4,
              done.5,
              rw (done.2, take_head 8 t cs (luhn_check_digit (t ++ cs) ∷ []) t_len) from,
            ),
          ),
          hr,
          plenty,
        ))

pub imei_of-Gives :
    (dst : List ℕ) (o : TelecomOptions) (ws : List ℕ)
    → TacOk o.tac
    → All IsU64 ws
    → Plenty IsGood 3 ws
    → Gives IsGood 0 (Appended (IsImei o.tac o.test) dst) (imei_of dst o ws)
unfolding imei_of
imei_of-Gives dst o ws ok hs live =
    Gives-bind IsGood 1 0 (Holds (HasTac dst o.tac o.test)) _ (append_tac dst o.tac o.test ws) _
      (append_tac-Gives 1 dst o.tac o.test ws ok hs live)
      (λ code rest h hr plenty. imei_behind-Gives dst o.tac o.test code rest h hr plenty)

-- The software version: the one given, or two digits below 99.
append_svn-Gives :
    (out svn : List ℕ) (ws : List ℕ)
    → SvnOk svn
    → All IsU64 ws
    → Plenty IsGood 1 ws
    → Gives IsGood 0
        (Appended (λ s. (length s ≡ 2) × All IsDigit s × SvnFrom svn s) out)
        (append_svn out svn ws)
unfolding append_svn
append_svn-Gives out (c ∷ cs) ws ok hs live =
    ((c ∷ cs, refl, (omega (arith, ok.0), ok.0.2, refl)), hs, tt)
append_svn-Gives out [] [] ok hs live = absurd live
append_svn-Gives out [] (x ∷ ws) ok hs live =
    Gives-bind IsGood 0 0 (λ v. v < 99) _ (bounded_from x 99 ws) _
      (bounded_from-Gives IsGood 0 99 x ws (λ y g. g.3) (omega arith) (omega arith) hs.0 hs.1 live)
      (λ v rest h hr plenty. ((two_digits v h), hr, plenty))
  where
    two_digits :
        (v : ℕ)
        → v < 99
        → Appended
            (λ s. (length s ≡ 2) × All IsDigit s × SvnFrom [] s)
            out
            (append_two_digits out (u8 v))
    two_digits v h = (
      u8 (48 + u8 v / 10) ∷ u8 (48 + u8 v % 10) ∷ [],
      refl,
      (refl, omega arith, (v, h, ap₂ (λ a b. a ∷ b ∷ []) tens units)),
    )
      where
        tens : u8 (48 + u8 v / 10) ≡ 48 + v / 10
        tens = omega arith

        units : u8 (48 + u8 v % 10) ≡ 48 + v % 10
        units = omega arith

pub imeisv_behind-Gives :
    (dst tac svn : List ℕ) (test : Bool) (code : Option (List ℕ)) (ws : List ℕ)
    → Holds (HasTac dst tac test) code
    → SvnOk svn
    → All IsU64 ws
    → Plenty IsGood 2 ws
    → Gives IsGood 0
        (Appended
          (λ id.
            (length id ≡ 16)
            × All IsDigit id
            × TacFrom tac test (take 8 id)
            × SvnFrom svn (drop 14 id))
          dst)
        (imeisv_behind dst svn code ws)
unfolding imeisv_behind
imeisv_behind-Gives dst tac svn test none ws h ok hs live = absurd h
imeisv_behind-Gives dst tac svn test (some out) ws h ok hs live =
    Gives-bind IsGood 1 0 (Extends out 6) _ (append_random_digits out 6 ws) _
      (append_random_digits-Gives 1 1 out 6 ws (omega arith) hs live)
      (λ filled rest ext hr plenty.
        let (t, out_eq, t_len, t_digits, from) = h in
        let (cs, filled_eq, cs_len, cs_digits) = ext in
        Gives-weaken IsGood 0
          (Appended (λ s. (length s ≡ 2) × All IsDigit s × SvnFrom svn s) filled) _
          (append_svn filled svn rest) (append_svn-Gives filled svn rest ok hr plenty)
          (λ whole v. (
            t ++ cs ++ v.0,
            v.1
                ∙ ap (λ o. o ++ v.0) (filled_eq ∙ ap (λ o. o ++ cs) out_eq ∙ append_assoc dst t cs)
                ∙ append_assoc dst (t ++ cs) v.0,
            (
              omega (arith, length-append (t ++ cs) v.0, length-append t cs, t_len, cs_len, v.2.0),
              All-append IsDigit (t ++ cs) v.0 (All-append IsDigit t cs t_digits cs_digits) v.2.1,
              rw (take_head 8 t cs v.0 t_len) from,
              rw (drop_prefix 14 (t ++ cs) v.0 (omega (arith, length-append t cs, t_len, cs_len)))
                  v.2.2,
            ),
          )))
