-- ===== src/Hardware/Address.antt =====
-- `Hardware`: what it writes for every kind.
use randomizer.Base.{
  ℕ, ◌*◌, ◌%◌, ◌≤◌, bit_and, ◌≡◌, refl, ap, ◌∙◌, inl, inr, true, false, ◌||◌, Option, none, some,
  List, [], ◌∷◌, arith, ltb, ◌==◌, ==_iff, length, All, IsU64, ◌<<<◌, Draw, Returns, Returns-bind,
  Option-cases,
}
use randomizer.Network.{Written, IsHeld, fixed_bytes_lem}
use randomizer.Provider.{fill_random_bytes}
use randomizer.Provider.Fill.{fill_random_bytes-Returns}
use randomizer.Ip.Eui.Laws.{put_modified_eui64-IsByte, put_modified_eui64_lem}
use randomizer.Base.Bits.{bit_and_mask}
use randomizer.Hardware.{
  HardwareKind, mac, mac_oui, mac_real_oui, eui64, eui64_from_mac, mac_prefix, mac_aai, mac_eli,
  mac_sai, eui64_real_oui, modified_eui64_from_mac, bluetooth_static, bluetooth_nrpa, bluetooth_rpa,
  unknown, HardwareOptions, Cache, irk_refused, keep, one_word, some_of, prefix_of, rpa_of,
  rpa_bytes, mac_real_oui_bytes, eui64_real_oui_bytes, random46_bytes, hardware_bytes, hardware,
  written,
}
use randomizer.Hardware.Kinds.{IsKey, InKind, Valid, Supplies, address_len, octet}
use randomizer.Hardware.Bytes.{
  IsOctets, mac_first-HasFlags, aai_bytes-IsOctets, sai_bytes-IsOctets, eui64_bytes-IsOctets,
  behind_oui-IsOctets, behind_oui_first, random46_bytes-Returns,
}
use randomizer.Hardware.Vendor.{
  mac_real_oui_bytes-Returns, eui64_real_oui_bytes-Returns, eui64_from_mac-IsOctets,
}
use randomizer.Hardware.Prefix.{copy_prefix-IsOctets}
use randomizer.Hardware.Bluetooth.{CacheOk, IsCipher, rpa_bytes-Returns}

irk_refused-key : (irk : Option (List ℕ)) → IsKey irk → irk_refused irk ≡ false
irk_refused-key none h = refl
irk_refused-key (some irk) h = ground arith

module _ (aes : List ℕ → List ℕ → List ℕ) where
  -- The octets of a kind, and a cache that holds what it says.
  abbrev pub IsResult : HardwareKind → HardwareOptions → Option (List ℕ) × Cache → Type 0
  IsResult kind o (none, after) = ⊥
  IsResult kind o (some b, after) =
      IsOctets (address_len kind) b × InKind aes kind o b × CacheOk aes after

  abbrev Octets : HardwareKind → HardwareOptions → List ℕ → Type 0
  Octets kind o b = IsOctets (address_len kind) b × InKind aes kind o b

  one_word-Returns :
      (kind : HardwareKind) (o : HardwareOptions) (cache : Cache) (f : ℕ → List ℕ) (ws : List ℕ)
      → CacheOk aes cache
      → All IsU64 ws
      → 1 ≤ length ws
      → ((x : ℕ) → Octets kind o (f x))
      → Returns (IsResult kind o) (keep cache (one_word f) ws)
  unfolding keep one_word
  one_word-Returns kind o cache f [] ok hs live h = absurd (omega arith)
  one_word-Returns kind o cache f (x ∷ ws) ok hs live h = (((h x).0, (h x).1, ok), hs.1)

  some_of-Returns :
      (kind : HardwareKind) (o : HardwareOptions) (cache : Cache) (m : Draw (List ℕ)) (ws : List ℕ)
      → CacheOk aes cache
      → Returns (Octets kind o) (m ws)
      → Returns (IsResult kind o) (keep cache (some_of m) ws)
  unfolding keep some_of
  some_of-Returns kind o cache m ws ok h = elim (Option-cases (m ws)) [
    | inl e ↦ absurd (rw e at h)
    | inr ((b, rest), e) ↦ let r = rw e at h in rw e ((r.0.0, r.0.1, ok), r.1)
  ]

  prefix_of-Returns :
      (o : HardwareOptions) (cache : Cache) (ws : List ℕ)
      → Valid mac_prefix o
      → CacheOk aes cache
      → All IsU64 ws
      → 1 ≤ length ws
      → Returns (IsResult mac_prefix o) (keep cache (prefix_of o) ws)
  unfolding keep prefix_of
  prefix_of-Returns o cache ws ok held hs live =
      let accepted : (ltb o.prefix_bits 1
            || ltb 48 o.prefix_bits
            || ltb (length o.prefix * 8) o.prefix_bits)
          ≡ false =
        ground (arith, ok) in
      let filled = fill_random_bytes-Returns 6 ws hs (omega arith) in
      elim (Option-cases (fill_random_bytes 6 ws)) [
        | inl e ↦ absurd (rw e at filled)
        | inr ((b, rest), e) ↦
            let r = rw e at filled in
            let c = copy_prefix-IsOctets o.prefix_bits o.prefix b ok.1 ok.2 ok.3 r.0 in
            rw (accepted, e) ((c.0, c.1, held), r.1)
      ]

  -- With a cipher of 16-byte blocks and a cache that holds the cipher of its key, valid options and
  -- words that supply the kind, the octets of the kind come out and the cache still does.
  pub hardware_bytes-Returns :
      (cache : Cache) (kind : HardwareKind) (o : HardwareOptions) (ws : List ℕ)
      → IsCipher aes
      → CacheOk aes cache
      → Valid kind o
      → All IsU64 ws
      → Supplies kind ws
      → Returns (IsResult kind o) (hardware_bytes aes cache kind o ws)
  unfolding hardware_bytes rpa_of
  hardware_bytes-Returns cache mac o ws cipher held ok hs live =
      one_word-Returns mac o cache _ ws held hs live (mac_first-HasFlags o.local o.multicast)
  hardware_bytes-Returns cache unknown o ws cipher held ok hs live =
      one_word-Returns unknown o cache _ ws held hs live (mac_first-HasFlags o.local o.multicast)
  hardware_bytes-Returns cache mac_oui o ws cipher held ok hs live =
      one_word-Returns mac_oui o cache _ ws held hs live
        (λ x. behind_oui-IsOctets o.oui x ok.0 ok.1)
  hardware_bytes-Returns cache mac_aai o ws cipher held ok hs live =
      one_word-Returns mac_aai o cache _ ws held hs live aai_bytes-IsOctets
  hardware_bytes-Returns cache mac_sai o ws cipher held ok hs live =
      one_word-Returns mac_sai o cache _ ws held hs live sai_bytes-IsOctets
  hardware_bytes-Returns cache eui64 o ws cipher held ok hs live =
      one_word-Returns eui64 o cache _ ws held hs live eui64_bytes-IsOctets
  hardware_bytes-Returns cache mac_eli o ws cipher held ok hs live =
      let company : (bit_and (octet o.cid 0) 0x0f == 0x0a) ≡ true =
        (==_iff _ _).1 (bit_and_mask 4 (octet o.cid 0) ∙ ok.2) in
      rw company (
        one_word-Returns mac_eli o cache _ ws held hs live (λ x.
          let h = behind_oui-IsOctets o.cid x ok.0 ok.1 in
          (h.0, (h.1, ap (λ t. t % 16) (behind_oui_first o.cid x ok.0) ∙ ok.2))))
  hardware_bytes-Returns cache mac_real_oui o ws cipher held ok hs live =
      some_of-Returns mac_real_oui o cache mac_real_oui_bytes ws held
        (mac_real_oui_bytes-Returns ws hs live)
  hardware_bytes-Returns cache eui64_real_oui o ws cipher held ok hs live =
      some_of-Returns eui64_real_oui o cache eui64_real_oui_bytes ws held
        (eui64_real_oui_bytes-Returns ws hs live)
  hardware_bytes-Returns cache bluetooth_static o ws cipher held ok hs live =
      some_of-Returns bluetooth_static o cache (random46_bytes (3 <<< 46)) ws held
        (random46_bytes-Returns 3 ws (omega arith) hs live)
  hardware_bytes-Returns cache bluetooth_nrpa o ws cipher held ok hs live =
      some_of-Returns bluetooth_nrpa o cache (random46_bytes 0) ws held
        (random46_bytes-Returns 0 ws (omega arith) hs live)
  hardware_bytes-Returns cache mac_prefix o ws cipher held ok hs live =
      prefix_of-Returns o cache ws ok held hs live
  hardware_bytes-Returns cache eui64_from_mac o ws cipher held ok hs live =
      let six : (length o.source == 6) ≡ true = (==_iff _ _).1 ok.0 in
      let h = eui64_from_mac-IsOctets o.source ok.0 ok.1 in rw six ((h.0, h.1, held), hs)
  hardware_bytes-Returns cache modified_eui64_from_mac o ws cipher held ok hs live =
      let six : (length o.source == 6) ≡ true = (==_iff _ _).1 ok.0 in
      let h = put_modified_eui64-IsByte o.source ok.1 (inl ok.0) in
      rw six ((h, put_modified_eui64_lem o.source ok.1 (inl ok.0), held), hs)
  hardware_bytes-Returns cache bluetooth_rpa o ws cipher held ok hs live =
      let r = rpa_bytes-Returns aes cache o.irk ws cipher held hs live in
      elim (Option-cases (rpa_bytes aes cache o.irk ws)) [
        | inl e ↦ absurd (rw e at r)
        | inr (((b, after), rest), e) ↦
            let h = rw e at r in
            rw (irk_refused-key o.irk ok, e) ((h.0.0, (h.0.1, h.0.2), h.0.3), h.1)
      ]

  -- What `Hardware` returns: nothing but octets of the kind, at the front of the caller's array where
  -- it has the room, with a cache that holds what it says.
  abbrev pub IsWritten : List ℕ → HardwareKind → HardwareOptions → Option Written × Cache → Type 0
  IsWritten array kind o (none, after) = ⊥
  IsWritten array kind o (some w, after) =
      IsHeld array w.bytes w.array
      × IsOctets (address_len kind) w.bytes
      × InKind aes kind o w.bytes
      × CacheOk aes after

  -- With a cipher of 16-byte blocks, a cache that holds the cipher of its key, valid options and
  -- words that supply the kind, `Hardware` returns an address of the kind: of its length, made of
  -- bytes, with the flags, prefix, ranges or hash that the kind and the options ask for. It is
  -- written to the front of the caller's array and nowhere else, and to no part of it where the array
  -- has no room. The cache still holds the cipher of its key.
  pub hardware-Returns :
      (cache : Cache) (array : List ℕ) (kind : HardwareKind) (o : HardwareOptions) (ws : List ℕ)
      → IsCipher aes
      → CacheOk aes cache
      → Valid kind o
      → All IsU64 ws
      → Supplies kind ws
      → Returns (IsWritten array kind o) (hardware aes cache array kind o ws)
  unfolding hardware written
  hardware-Returns cache array kind o ws cipher held ok hs live =
      Returns-bind (IsResult kind o) (IsWritten array kind o) (hardware_bytes aes cache kind o ws) _
        (hardware_bytes-Returns cache kind o ws cipher held ok hs live)
        (λ r rest h hr. (final r h, hr))
    where
      final :
          (r : Option (List ℕ) × Cache)
          → IsResult kind o r
          → IsWritten array kind o (written array r.0, r.1)
      final (none, after) h = absurd h
      final (some b, after) h = let e = fixed_bytes_lem array b in rw (e.0) (e.1, h.0, h.1, h.2)
