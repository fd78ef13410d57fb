-- ===== src/Value/Range.antt =====
-- Every kind of `Value` keeps to the range that the documentation of the kind gives.
use randomizer.Base.{
  ℕ, ◌+◌, ◌/◌, ◌%◌, ◌^◌, ◌≤◌, ◌<◌, ◌≡◌, refl, ◌↔◌, ◌⊎◌, true, some, List, [], ◌∷◌, arith, All, Any,
  Any-map, IsU64, draw_until-Returns, IsFound, Returns, Returns-bind, Returns-weaken,
}
use randomizer.Base.Bits.{bit_and_field}
use randomizer.Number.{bounded_from}
use randomizer.Number.Accepts.{Accepts, bounded_from-Returns}
use randomizer.Value.{
  ValueKind, any_port, privileged_port, registered_port, ephemeral_port, vlan_id, asn, vni,
  flow_label, mpls_label, ipv6_interface_id, vlan_id_unreserved, mpls_label_unreserved, asn_public,
  asn_public16, asn_private16, asn_private32, unknown, is_public_asn, public_asn_in, bounded_plus,
  skip_as_trans, value_of, value,
}

abbrev InRange : ℕ → ℕ → ℕ → Type 0
InRange lo hi v = (lo ≤ v) × (v ≤ hi)

-- The numbers that IANA can assign, by the ranges of the RFCs that reserve the others.
abbrev pub IsAssignable : ℕ → Type 0
IsAssignable a = InRange 1 23455 a ⊎ InRange 23457 64495 a ⊎ InRange 131072 4199999999 a

abbrev pub InKind : ValueKind → ℕ → Type 0
InKind any_port v = v ≤ 65535
InKind privileged_port v = InRange 1 1023 v
InKind registered_port v = InRange 1024 49151 v
InKind ephemeral_port v = InRange 49152 65535 v
InKind vlan_id v = v ≤ 4095
InKind asn v = v ≤ 4294967295
InKind vni v = v ≤ 16777215
InKind flow_label v = v ≤ 1048575
InKind mpls_label v = v ≤ 1048575
InKind ipv6_interface_id v = IsU64 v × (v / 2 ^ 56 % 4 ≡ 0)
InKind vlan_id_unreserved v = InRange 1 4094 v
InKind mpls_label_unreserved v = InRange 16 1048575 v
InKind asn_public v = IsAssignable v
InKind asn_public16 v = InRange 1 23455 v ⊎ InRange 23457 64495 v
InKind asn_private16 v = InRange 64512 65534 v
InKind asn_private32 v = InRange 4200000000 4294967294 v
InKind unknown v = v ≤ 65535

-- The words on which a kind draws no other.
abbrev pub Settles : ValueKind → ℕ → Type 0
Settles privileged_port x = Accepts 1023 x
Settles registered_port x = Accepts 48128 x
Settles vlan_id_unreserved x = Accepts 4094 x
Settles mpls_label_unreserved x = Accepts 1048560 x
Settles asn_public x = IsAssignable (x % 2 ^ 32) ⊎ IsAssignable (x / 2 ^ 32 % 2 ^ 32)
Settles asn_public16 x = Accepts 64494 x
Settles asn_private16 x = Accepts 1023 x
Settles asn_private32 x = Accepts 94967295 x
Settles _ x = Unit {0}

-- The test of the code accepts exactly the assignable numbers.
pub is_public_asn-IsAssignable : (a : ℕ) → (is_public_asn a ≡ true) ↔ IsAssignable a
unfolding is_public_asn
is_public_asn-IsAssignable a = (λ h. ground arith, λ h. ground arith)

bounded_plus-Returns :
    (x n base : ℕ) (ws : List ℕ)
    → 0 < n
    → n < 2 ^ 64
    → IsU64 x
    → All IsU64 ws
    → Any (Accepts n) (x ∷ ws)
    → Returns (λ v. (base ≤ v) × (v < base + n)) (bounded_plus x n base ws)
unfolding bounded_plus
bounded_plus-Returns x n base ws pos small hx hs live =
    Returns-bind (λ r. r < n) (λ v. (base ≤ v) × (v < base + n)) (bounded_from x n ws) _
      (bounded_from-Returns n x ws pos small hx hs live)
      (λ r rest h hr. ((omega arith, omega arith), hr))

public_asn_in-IsAssignable : (x a : ℕ) → IsU64 x → public_asn_in x ≡ some a → IsAssignable a
unfolding public_asn_in
public_asn_in-IsAssignable x a hx e = ground arith

public_asn_in-IsFound : (x : ℕ) → Settles asn_public x → IsFound (public_asn_in x)
unfolding public_asn_in
public_asn_in-IsFound x h = ground arith

-- `Value` on a first word `x`, for kinds that draw by `boundedFrom`.
module _ (x base n lo hi : ℕ) (ws : List ℕ) (e : lo ≡ base) (f : hi + 1 ≡ base + n) (pos : 0 < n)
    (small : n < 2 ^ 64) (hx : IsU64 x) (hs : All IsU64 ws) (live : Any (Accepts n) (x ∷ ws)) where
  in_range : Returns (InRange lo hi) (bounded_plus x n base ws)
  in_range =
      Returns-weaken _ (InRange lo hi) (bounded_plus x n base ws)
        (bounded_plus-Returns x n base ws pos small hx hs live) (λ v h. omega arith)

value_of-Returns :
    (kind : ValueKind) (x : ℕ) (ws : List ℕ)
    → IsU64 x
    → All IsU64 ws
    → Any (Settles kind) (x ∷ ws)
    → Returns (InKind kind) (value_of kind x ws)
unfolding value_of
value_of-Returns any_port x ws hx hs live = (omega arith, hs)
value_of-Returns privileged_port x ws hx hs live =
    in_range x 1 1023 _ _ ws refl refl (omega arith) (omega arith) hx hs live
value_of-Returns registered_port x ws hx hs live =
    in_range x 1024 48128 _ _ ws refl refl (omega arith) (omega arith) hx hs live
value_of-Returns ephemeral_port x ws hx hs live = (omega arith, hs)
value_of-Returns vlan_id x ws hx hs live = (omega arith, hs)
value_of-Returns asn x ws hx hs live = (omega arith, hs)
value_of-Returns vni x ws hx hs live = (omega arith, hs)
value_of-Returns flow_label x ws hx hs live = (omega arith, hs)
value_of-Returns mpls_label x ws hx hs live = (omega arith, hs)
value_of-Returns ipv6_interface_id x ws hx hs live = (omega (arith, bit_and_field 56 2 x), hs)
value_of-Returns vlan_id_unreserved x ws hx hs live =
    in_range x 1 4094 _ _ ws refl refl (omega arith) (omega arith) hx hs live
value_of-Returns mpls_label_unreserved x ws hx hs live =
    in_range x 16 1048560 _ _ ws refl refl (omega arith) (omega arith) hx hs live
value_of-Returns asn_public x ws hx hs live =
    draw_until-Returns IsAssignable public_asn_in x ws public_asn_in-IsAssignable hx hs
      (Any-map _ _ (x ∷ ws) public_asn_in-IsFound live)
value_of-Returns asn_public16 x ws hx hs live =
    Returns-bind (InRange 1 64494) _ (bounded_plus x 64494 1 ws) _
      (in_range x 1 64494 _ _ ws refl refl (omega arith) (omega arith) hx hs live)
      (λ v rest h hr. (unfold skip_as_trans in ground arith, hr))
value_of-Returns asn_private16 x ws hx hs live =
    in_range x 64512 1023 _ _ ws refl refl (omega arith) (omega arith) hx hs live
value_of-Returns asn_private32 x ws hx hs live =
    in_range x 4200000000 94967295 _ _ ws refl refl (omega arith) (omega arith) hx hs live
value_of-Returns unknown x ws hx hs live = (omega arith, hs)

-- On 64-bit words of which one settles the kind, `Value` returns a number in the kind's range.
pub value-Returns :
    (kind : ValueKind) (ws : List ℕ)
    → All IsU64 ws
    → Any (Settles kind) ws
    → Returns (InKind kind) (value kind ws)
unfolding value
value-Returns kind [] hs live = absurd live
value-Returns kind (x ∷ ws) hs live = value_of-Returns kind x ws hs.0 hs.1 live
