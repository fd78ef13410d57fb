-- ===== src/Ouigen/Decode.antt =====
-- What an assignment of the registry is read as.
use randomizer.Base.{
  ℕ, ◌+◌, ◌*◌, ◌≡◌, refl, sym, ◌∙◌, inl, inr, Bool, true, false, ◌&&◌, List, [], ◌∷◌, arith, leb,
  ◌==◌, if◌then◌else◌, Bool-cases, length, take,
}
use randomizer.Ouigen.{bad_oui, ok, failed, crashed, is_hex, hex_digit, decode_oui}

unfoldable pub all_hex : List ℕ → Bool
all_hex [] = true
all_hex (c ∷ cs) = is_hex c && all_hex cs

-- The number that each pair of digits stands for.
unfoldable pub octets : List ℕ → List ℕ
octets [] = []
octets (p ∷ []) = []
octets (p ∷ q ∷ rest) = (hex_digit p * 16 + hex_digit q) ∷ octets rest

-- An assignment of six hexadecimal digits of either case is the three bytes that they stand for. One
-- that starts with eight or more hexadecimal digits panics, since it does not fit the array of three
-- bytes. Every other assignment is refused as bad.
pub decode_oui_lem :
    (a : List ℕ)
    → decode_oui a ≡ (
        if leb 8 (length a) && all_hex (take 8 a)
        then crashed
        else if length a == 6 && all_hex a
        then ok (octets a)
        else failed (bad_oui a))
unfolding decode_oui all_hex octets
decode_oui_lem [] = refl
decode_oui_lem (a ∷ []) = ground arith
decode_oui_lem (a ∷ b ∷ []) = ground arith
decode_oui_lem (a ∷ b ∷ c ∷ []) = ground arith
decode_oui_lem (a ∷ b ∷ c ∷ d ∷ []) = ground arith
decode_oui_lem (a ∷ b ∷ c ∷ d ∷ e ∷ []) = ground arith
decode_oui_lem (a ∷ b ∷ c ∷ d ∷ e ∷ f ∷ []) = ground arith
decode_oui_lem (a ∷ b ∷ c ∷ d ∷ e ∷ f ∷ g ∷ []) = ground arith
decode_oui_lem (a ∷ b ∷ c ∷ d ∷ e ∷ f ∷ g ∷ h ∷ rest) = ground arith

pub decode_oui-ok : (a : List ℕ) → length a ≡ 6 → all_hex a ≡ true → decode_oui a ≡ ok (octets a)
decode_oui-ok a six hex =
    let short : leb 8 (length a) ≡ false = ground arith in
    let exact : (length a == 6) ≡ true = ground arith in
    decode_oui_lem a ∙ rw (short, exact, hex) refl

pub decode_oui-eq-ok :
    (a oui : List ℕ)
    → decode_oui a ≡ ok oui
    → (length a ≡ 6) × (all_hex a ≡ true) × (oui ≡ octets a)
decode_oui-eq-ok a oui e =
    let p = sym (decode_oui_lem a) ∙ e in
    elim (Bool-cases (leb 8 (length a) && all_hex (take 8 a))) [
      | inl long ↦ cc (rw long at p)
      | inr fits ↦ elim (Bool-cases (length a == 6 && all_hex a)) [
        | inl good ↦
            let same : octets a ≡ oui = cc (rw (fits, good) at p) in
            (ground arith, ground arith, sym same)
        | inr bad ↦ cc (rw (fits, bad) at p)
      ]
    ]
