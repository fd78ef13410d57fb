-- ===== src/Value.antt =====
-- value.go: ports, VLANs, labels and autonomous system numbers.
pub mod Range
use randomizer.Base.{
  ℕ, ◌+◌, ◌-◌, Bool, true, false, ◌&&◌, ◌||◌, Option, none, some, leb, ◌==◌, if◌then◌else◌, u16,
  u32, ◌<<<◌, ◌>>>◌, and_not, Draw, pure, ◌>>=◌, ◌>>◌, draw_until, sum64,
}
use randomizer.Number.{bounded_from}

-- `unknown` is any kind beyond the declared ones.
pub data ValueKind : Type 0 where
  any_port privileged_port registered_port ephemeral_port vlan_id asn vni flow_label : ValueKind
  mpls_label ipv6_interface_id vlan_id_unreserved mpls_label_unreserved : ValueKind
  asn_public asn_public16 asn_private16 asn_private32 unknown : ValueKind

unfoldable pub is_public_asn : ℕ → Bool
is_public_asn a =
    if a == 0 || a == 23456
    then false
    else if leb 64496 a && leb a 131071
    then false
    else if leb 4200000000 a
    then false
    else true

-- The loop of `ASNPublic` on one word: its low half, else its high half, else the next word.
unfoldable pub public_asn_in : ℕ → Option ℕ
unfolding is_public_asn
public_asn_in x =
    if is_public_asn (u32 x)
    then some (u32 x)
    else if is_public_asn (u32 (x >>> 32))
    then some (u32 (x >>> 32))
    else none

-- A bounded draw moved up by `base`.
bounded_plus : ℕ → ℕ → ℕ → Draw ℕ
bounded_plus x n base = do v ← bounded_from x n; pure (v + base)

skip_as_trans : ℕ → ℕ
skip_as_trans v = if leb 23456 v then v + 1 else v

-- The switch of `Value` on the word `x`.
unfoldable pub value_of : ValueKind → ℕ → Draw ℕ
unfolding bounded_plus skip_as_trans public_asn_in
value_of privileged_port x = bounded_plus x 1023 1
value_of registered_port x = bounded_plus x 48128 1024
value_of ephemeral_port x = pure (u16 (u16 (x >>> 50) + 49152))
value_of vlan_id x = pure (x >>> 52)
value_of asn x = pure (x >>> 32)
value_of vni x = pure (x >>> 40)
value_of flow_label x = pure (x >>> 44)
value_of mpls_label x = pure (x >>> 44)
value_of ipv6_interface_id x = pure (and_not x (3 <<< 56))
value_of vlan_id_unreserved x = bounded_plus x 4094 1
value_of mpls_label_unreserved x = bounded_plus x (1 <<< 20 - 16) 16
value_of asn_public x = draw_until public_asn_in x
value_of asn_public16 x = do v ← bounded_plus x 64494 1; pure (skip_as_trans v)
value_of asn_private16 x = bounded_plus x 1023 64512
value_of asn_private32 x = bounded_plus x 94967295 4200000000
value_of any_port x = pure (x >>> 48)
value_of unknown x = pure (x >>> 48)

unfoldable pub value : ValueKind → Draw ℕ
unfolding value_of
value kind = do x ← sum64; value_of kind x
