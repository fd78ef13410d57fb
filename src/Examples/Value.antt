-- ===== src/Examples/Value.antt =====
-- value.go on concrete words.
use randomizer.Base.{
  ◌+◌, ◌^◌, ◌≡◌, refl, ◌↔◌, inl, inr, true, some, [], ◌∷◌, arith, Returns, draw_until,
}
use randomizer.Value.{asn_public, vlan_id_unreserved, is_public_asn, value}
use randomizer.Value.Range.{InKind, IsAssignable, is_public_asn-IsAssignable, value-Returns}

second_half :
    value asn_public (0xfc00 ∷ 0x5ba0_0000_5ba0 ∷ 0x5ba1_0000_5ba0 ∷ []) ≡ some (0x5ba1, [])
unfolding value draw_until
second_half = refl

is_public_asn-IsAssignable_example : (is_public_asn 23456 ≡ true) ↔ IsAssignable 23456
is_public_asn-IsAssignable_example = is_public_asn-IsAssignable 23456

value-Returns_example :
    Returns (InKind vlan_id_unreserved) (value vlan_id_unreserved (0 ∷ (2 ^ 63 + 1) ∷ []))
value-Returns_example =
    value-Returns vlan_id_unreserved (0 ∷ (2 ^ 63 + 1) ∷ []) (omega arith) (inr (inl (omega arith)))
