-- ===== src/Hardware/Refusals.antt =====
-- The options on which `Hardware` returns nil.
use randomizer.Base.{
  ℕ, ◌*◌, ◌%◌, ◌<◌, bit_and, ◌≡◌, refl, ◌≢◌, ◌⊎◌, inl, inr, false, ◌||◌, Option, none, some, List,
  [], ◌∷◌, arith, ltb, ◌==◌, ==_iff, Bool-cases, length, ◌<<<◌, Draw, pure, bind_result,
  Option-cases,
}
use randomizer.Base.Bits.{bit_and_mask}
use randomizer.Provider.{fill_random_bytes}
use randomizer.Hardware.{
  HardwareKind, mac, mac_oui, mac_real_oui, eui64, eui64_from_mac, mac_prefix, mac_aai, mac_eli,
  mac_sai, eui64_real_oui, modified_eui64_from_mac, bluetooth_static, bluetooth_nrpa, bluetooth_rpa,
  unknown, HardwareOptions, Cache, irk_refused, one_word, some_of, keep, rpa_of, prefix_of, written,
  rpa_bytes, mac_real_oui_bytes, eui64_real_oui_bytes, random46_bytes, hardware_bytes, hardware,
}
use randomizer.Hardware.Kinds.{octet}

-- A key that is neither nil nor of 16 bytes.
abbrev pub IsBadKey : Option (List ℕ) → Type 0
IsBadKey none = ⊥
IsBadKey (some irk) = length irk ≢ 16

-- The options for which nil is documented: no prefix of 1 to 48 bits, no Company ID, no address of
-- 6 bytes, no key.
abbrev pub Refused : HardwareKind → HardwareOptions → Type 0
Refused mac_prefix o =
    (o.prefix_bits < 1) ⊎ (48 < o.prefix_bits) ⊎ (length o.prefix * 8 < o.prefix_bits)
Refused mac_eli o = octet o.cid 0 % 16 ≢ 10
Refused eui64_from_mac o = length o.source ≢ 6
Refused modified_eui64_from_mac o = length o.source ≢ 6
Refused bluetooth_rpa o = IsBadKey o.irk
Refused _ o = ⊥

-- What the code returns, if it does, is not nil.
abbrev pub NeverNil {ℓ} : {A : Type ℓ} → Option ((Option A × Cache) × List ℕ) → Type 0
NeverNil none = Unit
NeverNil (some ((none, after), rest)) = ⊥
NeverNil (some ((some a, after), rest)) = Unit

module _ (aes : List ℕ → List ℕ → List ℕ) (cache : Cache) where
  -- The two outcomes, before the bytes are written.
  abbrev Splits : HardwareKind → HardwareOptions → List ℕ → Type 0
  Splits kind o ws =
      (Refused kind o × (hardware_bytes aes cache kind o ws ≡ some ((none, cache), ws)))
      ⊎ ((¬ Refused kind o) × NeverNil (hardware_bytes aes cache kind o ws))

  one_word-NeverNil : (f : ℕ → List ℕ) (ws : List ℕ) → NeverNil (keep cache (one_word f) ws)
  unfolding keep one_word
  one_word-NeverNil f [] = tt
  one_word-NeverNil f (x ∷ ws) = tt

  some_of-NeverNil : (m : Draw (List ℕ)) (ws : List ℕ) → NeverNil (keep cache (some_of m) ws)
  unfolding keep some_of
  some_of-NeverNil m ws = elim (Option-cases (m ws)) [
    | inl e ↦ rw e tt
    | inr ((b, rest), e) ↦ rw e tt
  ]

  prefix-Splits : (o : HardwareOptions) (ws : List ℕ) → Splits mac_prefix o ws
  unfolding hardware_bytes keep prefix_of
  prefix-Splits o ws =
      let test =
        ltb o.prefix_bits 1 || ltb 48 o.prefix_bits || ltb (length o.prefix * 8) o.prefix_bits in
      elim (Bool-cases test) [
        | inl bad ↦ inl (ground arith, rw bad refl)
        | inr good ↦ inr (
          λ refused. ground (arith, refused),
          rw good (elim (Option-cases (fill_random_bytes 6 ws)) [
            | inl e ↦ rw e tt
            | inr ((b, rest), e) ↦ rw e tt
          ]),
        )
      ]

  eli-Splits : (o : HardwareOptions) (ws : List ℕ) → Splits mac_eli o ws
  unfolding hardware_bytes
  eli-Splits o ws =
      let m = bit_and_mask 4 (octet o.cid 0) in
      elim (Bool-cases (bit_and (octet o.cid 0) 0x0f == 0x0a)) [
        | inl good ↦ inr (λ refused. ground (arith, refused), rw good (one_word-NeverNil _ ws))
        | inr bad ↦ inl (ground arith, rw bad refl)
      ]

  source-Splits :
      (o : HardwareOptions) (ws : List ℕ)
      → Splits eui64_from_mac o ws × Splits modified_eui64_from_mac o ws
  unfolding hardware_bytes
  source-Splits o ws = elim (Bool-cases (length o.source == 6)) [
    | inl good ↦
        let six : length o.source ≡ 6 = (==_iff _ _).0 good in
        (inr (λ refused. refused six, rw good tt), inr (λ refused. refused six, rw good tt))
    | inr bad ↦
        let other : length o.source ≢ 6 = ground arith in
        (inl (other, rw bad refl), inl (other, rw bad refl))
  ]

  rpa-NeverNil :
      (irk : Option (List ℕ)) (ws : List ℕ)
      → irk_refused irk ≡ false
      → NeverNil (rpa_of aes cache irk ws)
  unfolding rpa_of
  rpa-NeverNil irk ws good = rw good (elim (Option-cases (rpa_bytes aes cache irk ws)) [
    | inl e ↦ rw e tt
    | inr (((b, after), rest), e) ↦ rw e tt
  ])

  rpa-Splits :
      (irk : Option (List ℕ)) (ws : List ℕ)
      → (IsBadKey irk × (rpa_of aes cache irk ws ≡ some ((none, cache), ws)))
        ⊎ ((¬ IsBadKey irk) × NeverNil (rpa_of aes cache irk ws))
  rpa-Splits none ws = inr (λ refused. refused, rpa-NeverNil none ws refl)
  rpa-Splits (some irk) ws = elim (Bool-cases (length irk == 16)) [
    | inl good ↦
        inr (λ refused. refused ((==_iff _ _).0 good), rpa-NeverNil (some irk) ws (ground arith))
    | inr bad ↦ inl (ground arith, unfold rpa_of in rw bad refl)
  ]

  hardware-Splits : (kind : HardwareKind) (o : HardwareOptions) (ws : List ℕ) → Splits kind o ws
  unfolding hardware_bytes
  hardware-Splits mac_prefix o ws = prefix-Splits o ws
  hardware-Splits mac_eli o ws = eli-Splits o ws
  hardware-Splits eui64_from_mac o ws = (source-Splits o ws).0
  hardware-Splits modified_eui64_from_mac o ws = (source-Splits o ws).1
  hardware-Splits bluetooth_rpa o ws = rpa-Splits o.irk ws
  hardware-Splits mac o ws = inr (λ refused. refused, one_word-NeverNil _ ws)
  hardware-Splits mac_oui o ws = inr (λ refused. refused, one_word-NeverNil _ ws)
  hardware-Splits mac_aai o ws = inr (λ refused. refused, one_word-NeverNil _ ws)
  hardware-Splits mac_sai o ws = inr (λ refused. refused, one_word-NeverNil _ ws)
  hardware-Splits eui64 o ws = inr (λ refused. refused, one_word-NeverNil _ ws)
  hardware-Splits unknown o ws = inr (λ refused. refused, one_word-NeverNil _ ws)
  hardware-Splits mac_real_oui o ws =
      inr (λ refused. refused, some_of-NeverNil mac_real_oui_bytes ws)
  hardware-Splits eui64_real_oui o ws =
      inr (λ refused. refused, some_of-NeverNil eui64_real_oui_bytes ws)
  hardware-Splits bluetooth_static o ws =
      inr (λ refused. refused, some_of-NeverNil (random46_bytes (3 <<< 46)) ws)
  hardware-Splits bluetooth_nrpa o ws =
      inr (λ refused. refused, some_of-NeverNil (random46_bytes 0) ws)

  -- `Hardware` returns nil exactly for the options for which that is documented, and then it draws no
  -- word and keeps the cache. For every other options what it returns is not nil.
  pub hardware_rejects :
      (array : List ℕ) (kind : HardwareKind) (o : HardwareOptions) (ws : List ℕ)
      → (Refused kind o × (hardware aes cache array kind o ws ≡ some ((none, cache), ws)))
        ⊎ ((¬ Refused kind o) × NeverNil (hardware aes cache array kind o ws))
  unfolding hardware written
  hardware_rejects array kind o ws = elim (hardware-Splits kind o ws) [
    | inl (refused, nil) ↦ inl (refused, rw nil refl)
    | inr (accepted, never) ↦
        inr (accepted, after_write array (hardware_bytes aes cache kind o ws) never)
  ]
    where
      after_write :
          (array : List ℕ) (r : Option ((Option (List ℕ) × Cache) × List ℕ))
          → NeverNil r
          → NeverNil (bind_result r (λ x. pure (written array x.0, x.1)))
      after_write array none h = tt
      after_write array (some ((none, after), rest)) h = absurd h
      after_write array (some ((some b, after), rest)) h = tt
