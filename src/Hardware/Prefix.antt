-- ===== src/Hardware/Prefix.antt =====
-- `HardwareMACPrefix`: the address starts with the bits of the prefix.
use randomizer.Base.{
  ℕ, zero, suc, ◌+◌, ◌*◌, ◌/◌, ◌%◌, ◌≤◌, ◌<◌, bit_and, ◌≡◌, refl, sym, ap, ◌∙◌, inl, inr, true,
  List, [], ◌∷◌, ◌++◌, arith, ltb, ◌==◌, lt→ltb, ==_iff, Bool-cases, length, get_or, take, drop,
  set, length-append, length-take, length-set, All-set, All-take, length-drop, All-drop, set, All,
  All-append, IsByte,
}
use randomizer.Base.Bits.Merge.{merge, merge_lem, merge-lt}
use randomizer.Cidr.{byte_mask}
use randomizer.Base.Bits.{bit_and_mask}
use randomizer.Cidr.Mask.{bit_of, bit_at, partial_byte, get_or-set, get_or-IsByte}
use randomizer.Hardware.{copy_prefix}
use randomizer.Hardware.Bytes.{IsOctets}

get_or-take_append :
    (full : ℕ) (xs r : List ℕ) (j : ℕ)
    → j < full
    → full ≤ length xs
    → get_or (take full xs ++ r) j 0 ≡ get_or xs j 0
get_or-take_append zero xs r j lt le = absurd (omega arith)
get_or-take_append (suc full) [] r j lt le = absurd (omega arith)
get_or-take_append (suc full) (x ∷ xs) r zero lt le = refl
get_or-take_append (suc full) (x ∷ xs) r (suc j) lt le =
    get_or-take_append full xs r j (omega arith) (omega arith)

-- The byte that the prefix ends in has its first `rem` bits.
merged_bit :
    (p c rem i : ℕ)
    → p < 256
    → c < 256
    → rem < 8
    → i < rem
    → bit_of (merge p c (byte_mask rem)) i ≡ bit_of p i
merged_bit p c rem i hp hc hr hi =
    let m = byte_mask rem in
    let v = merge p c m in
    let e = ap (λ t. bit_of t i) (merge_lem p c m).0 in
    let ev = partial_byte v rem i (merge-lt 8 p c m hp hc) hr (omega arith) in
    let ep = partial_byte p rem i hp hr (omega arith) in
    let yes : ltb i rem ≡ true = lt→ltb i rem hi in rw yes at (sym ev ∙ e ∙ ep)

module _ (full rem : ℕ) (prefix b : List ℕ) (octets : IsOctets 6 b) (bytes : All IsByte prefix)
    (small : rem < 8) (enough : full * 8 + rem ≤ length prefix * 8)
    (fits : full * 8 + rem ≤ 48) where
  abbrev copied : List ℕ
  copied = take full prefix ++ drop full b

  abbrev last : ℕ
  last = merge (get_or prefix full 0) (get_or copied full 0) (byte_mask rem)

  copied-IsOctets : IsOctets 6 copied
  copied-IsOctets = (
    omega (
      arith,
      length-append (take full prefix) (drop full b),
      length-take full prefix,
      length-drop full b,
      octets.0,
    ),
    All-append IsByte (take full prefix) (drop full b) (All-take IsByte full prefix bytes)
        (All-drop IsByte full b octets.1),
  )

  last-lt : last < 256
  last-lt =
      merge-lt 8 (get_or prefix full 0) (get_or copied full 0) (byte_mask rem)
        (get_or-IsByte prefix full bytes) (get_or-IsByte copied full copied-IsOctets.1)

  whole_bit : (i : ℕ) → i / 8 < full → bit_at copied i ≡ bit_at prefix i
  whole_bit i lt =
      ap (λ t. bit_of t (i % 8))
        (get_or-take_append full prefix (drop full b) (i / 8) lt (omega arith))

  partial_bit :
      (i : ℕ) → 0 < rem → i < full * 8 + rem → bit_at (set copied full last) i ≡ bit_at prefix i
  partial_bit i pos lt =
      let at = get_or-set copied full (i / 8) last (omega (arith, copied-IsOctets.0)) in
      elim (Bool-cases (full == i / 8)) [
        | inl e ↦
            let same = (==_iff full (i / 8)).0 e in
            ap (λ t. bit_of t (i % 8)) (rw e at at)
            ∙ merged_bit (get_or prefix full 0) (get_or copied full 0) rem (i % 8)
                (get_or-IsByte prefix full bytes) (get_or-IsByte copied full copied-IsOctets.1)
                small (omega arith)
            ∙ ap (λ t. bit_of (get_or prefix t 0) (i % 8)) same
        | inr e ↦ ap (λ t. bit_of t (i % 8)) (rw e at at) ∙ whole_bit i (ground arith)
      ]

-- The octets of the prefix are copied, and of the octet that it ends in only the bits of the prefix.
pub copy_prefix-IsOctets :
    (bits : ℕ) (prefix b : List ℕ)
    → bits ≤ 48
    → bits ≤ length prefix * 8
    → All IsByte prefix
    → IsOctets 6 b
    → IsOctets 6 (copy_prefix bits prefix b)
      × ((i : ℕ) → i < bits → bit_at (copy_prefix bits prefix b) i ≡ bit_at prefix i)
unfolding copy_prefix
copy_prefix-IsOctets bits prefix b fits enough bytes octets =
    let full = bits / 8 in
    let rem = bits % 8 in
    let e : bit_and bits 7 ≡ rem = bit_and_mask 3 bits in
    let c =
      copied-IsOctets full rem prefix b octets bytes (omega arith) (omega arith) (omega arith) in
    elim (Bool-cases (rem == 0)) [
      | inl z ↦
          rw (e, z)
            (
              c,
              λ i lt.
                  whole_bit full rem prefix b octets bytes (omega arith) (omega arith) (omega arith)
                    i (omega (arith, (==_iff rem 0).0 z)),
            )
      | inr z ↦
          rw (e, z)
            (
              (
                omega (
                  arith,
                  length-set
                      (copied full rem prefix b octets bytes (omega arith) (omega arith)
                        (omega arith))
                      full
                      (last full rem prefix b octets bytes (omega arith) (omega arith)
                        (omega arith)),
                  c.0,
                ),
                All-set IsByte (take full prefix ++ drop full b) full _ c.1 (
                    last-lt full rem prefix b octets bytes (omega arith) (omega arith)
                      (omega arith)),
              ),
              λ i lt.
                  partial_bit full rem prefix b octets bytes (omega arith) (omega arith)
                    (omega arith) i (ground arith) (omega arith),
            )
    ]
