-- ===== src/Ip/Fill/InKind.antt =====
-- Every kind of `fillIP` gives an address of the kind.
use randomizer.Base.{
  ℕ, ◌+◌, ◌-◌, ◌*◌, ◌%◌, ◌^◌, ◌≤◌, ◌<◌, ◌≡◌, refl, sym, ◌∙◌, ◌≢◌, List, [], ◌∷◌, ◌++◌, arith,
  length, All, Any-map, u32, IsU64, put_uint32, pure, bind_result, Returns, Returns-bind,
  draw_until-Returns, IsFound,
}
use randomizer.Ip.{
  IpKind, ipv4_any, ipv4_private, ipv4_link_local, ipv4_multicast, ipv4_public, ipv6_any,
  ipv6_global, ipv6_link_local, ipv6_site_local, ipv6_unique_local, ipv6_interface_local_multicast,
  ipv6_link_local_multicast, ipv6_admin_local_multicast, ipv6_site_local_multicast,
  ipv6_org_local_multicast, ipv6_global_multicast, ipv4_loopback, ipv4_cgnat, ipv4_documentation,
  ipv6_documentation, ipv6_public, ipv6_realm_local_multicast, unknown, ip_len, multicast_scope,
}
use randomizer.Base.Bits.{bit_and_mask}
use randomizer.Number.{bounded_from}
use randomizer.Number.Accepts.{bounded_from-Returns}
use randomizer.Provider.{put_tail, fill_random_bytes}
use randomizer.Ip.Public.Blocks.{InBlock6}
use randomizer.Ip.Fill.Bytes.{
  private_ipv4-IsAddress, link_local_in-IsAddress, multicast_ipv4-IsAddress, cgnat_ipv4-IsAddress,
  documentation_ipv4-IsAddress, loopback_in-IsAddress, two_words, global, site_local, unique_local,
  documentation, any_ipv6, multicast_block, link_local,
}
use randomizer.Ip.Fill.PublicKinds.{public_ipv4-Returns, public_ipv6-Returns}
use randomizer.Ip.Fill.Spec.{hi64, InKind, IsAddress, Supplies}
use randomizer.Ip.Fill.{link_local_in, loopback_in, multicast_ipv6, fill_ip}

any_bytes :
    (ws : List ℕ)
    → All IsU64 ws
    → 16 ≤ 8 * length ws
    → Returns (IsAddress ipv6_any) (fill_random_bytes 16 ws)
any_bytes [] hs live = absurd (omega arith)
any_bytes (x ∷ []) hs live = absurd (omega arith)
any_bytes (x ∷ y ∷ ws) hs live = rw (two_words x y ws) (any_ipv6 x y ws, hs.1.1)

-- Sixteen random bytes that a function turns into an address.
random_bytes :
    (kind : IpKind) (f : List ℕ → List ℕ)
    → ((x y : ℕ) → List ℕ → IsAddress kind (f (put_tail 8 x ++ put_tail 8 y)))
    → (ws : List ℕ) → All IsU64 ws
    → 16 ≤ 8 * length ws
    → Returns (IsAddress kind) (bind_result (fill_random_bytes 16 ws) (λ b. pure (f b)))
random_bytes kind f good [] hs live = absurd (omega arith)
random_bytes kind f good (x ∷ []) hs live = absurd (omega arith)
random_bytes kind f good (x ∷ y ∷ ws) hs live = rw (two_words x y ws) (good x y ws, hs.1.1)

multicast :
    (kind : IpKind)
    → ip_len kind ≡ 16
    → multicast_scope kind < 16
    → ((b : List ℕ)
        → InBlock6 ((0xff10 + multicast_scope kind) * 2 ^ 48) 16 (hi64 b)
        → InKind kind b)
    → (ws : List ℕ) → All IsU64 ws
    → 16 ≤ 8 * length ws
    → Returns (IsAddress kind) (multicast_ipv6 kind ws)
unfolding multicast_ipv6
multicast kind len scope block ws hs live =
    random_bytes kind _
      (λ x y ws.
        let m = multicast_block x y ws (multicast_scope kind) scope in
        record { len = m.0 ∙ sym len; bytes = m.1; kind_of = block _ m.2 })
      ws hs live

loopback_in-IsFound :
    (x : ℕ) → (x % 2 ^ 24 ≢ 0) × (x % 2 ^ 24 ≢ 2 ^ 24 - 1) → IsFound (loopback_in x)
unfolding loopback_in
loopback_in-IsFound x n = ground (arith, bit_and_mask 24 (u32 x))

link_local_in-IsFound : (x : ℕ) → (x % 256 ≢ 0) × (x % 256 ≢ 255) → IsFound (link_local_in x)
unfolding link_local_in
link_local_in-IsFound x n = ground arith

plain_ipv4 :
    (kind : IpKind) (x : ℕ)
    → ip_len kind ≡ 4
    → ((b : List ℕ) → InKind kind b)
    → IsAddress kind (put_uint32 (u32 x))
unfolding put_uint32
plain_ipv4 kind x len block = record { len = sym len; bytes = omega arith; kind_of = block _ }

-- On 64-bit words that supply the kind, `fillIP` ends with an address of the kind: of its length,
-- made of bytes, and in the documented blocks of the kind.
pub fill_ip-Returns :
    (kind : IpKind) (ws : List ℕ)
    → All IsU64 ws
    → Supplies kind ws
    → Returns (IsAddress kind) (fill_ip kind ws)
unfolding fill_ip ip_len
fill_ip-Returns ipv4_private [] hs live = absurd (omega arith)
fill_ip-Returns ipv4_private (x ∷ ws) hs live = (private_ipv4-IsAddress x, hs.1)
fill_ip-Returns ipv4_link_local [] hs live = absurd live
fill_ip-Returns ipv4_link_local (x ∷ ws) hs live =
    draw_until-Returns _ link_local_in x ws link_local_in-IsAddress hs.0 hs.1
      (Any-map _ _ (x ∷ ws) link_local_in-IsFound live)
fill_ip-Returns ipv4_multicast [] hs live = absurd (omega arith)
fill_ip-Returns ipv4_multicast (x ∷ ws) hs live = (multicast_ipv4-IsAddress (u32 x), hs.1)
fill_ip-Returns ipv4_public ws hs live = public_ipv4-Returns ws hs live
fill_ip-Returns ipv4_loopback [] hs live = absurd live
fill_ip-Returns ipv4_loopback (x ∷ ws) hs live =
    draw_until-Returns _ loopback_in x ws loopback_in-IsAddress hs.0 hs.1
      (Any-map _ _ (x ∷ ws) loopback_in-IsFound live)
fill_ip-Returns ipv4_cgnat [] hs live = absurd (omega arith)
fill_ip-Returns ipv4_cgnat (x ∷ ws) hs live = (cgnat_ipv4-IsAddress (u32 x), hs.1)
fill_ip-Returns ipv4_documentation [] hs live = absurd live
fill_ip-Returns ipv4_documentation (x ∷ ws) hs live =
    Returns-bind (λ v. v < 768) _ (bounded_from x 768 ws) _
      (bounded_from-Returns 768 x ws (omega arith) (omega arith) hs.0 hs.1 live)
      (λ v rest h hr. (documentation_ipv4-IsAddress v h, hr))
fill_ip-Returns ipv6_any ws hs live = any_bytes ws hs live
fill_ip-Returns ipv6_global ws hs live = random_bytes _ _ global ws hs live
fill_ip-Returns ipv6_link_local [] hs live = absurd (omega arith)
fill_ip-Returns ipv6_link_local (x ∷ ws) hs live = (link_local x x [] hs.0, hs.1)
fill_ip-Returns ipv6_site_local ws hs live = random_bytes _ _ site_local ws hs live
fill_ip-Returns ipv6_unique_local ws hs live = random_bytes _ _ unique_local ws hs live
fill_ip-Returns ipv6_documentation ws hs live = random_bytes _ _ documentation ws hs live
fill_ip-Returns ipv6_public ws hs live = public_ipv6-Returns ws hs live
fill_ip-Returns ipv6_interface_local_multicast ws hs live =
    multicast ipv6_interface_local_multicast refl (unfold multicast_scope in omega arith)
      (λ b h. unfold multicast_scope in h) ws hs live
fill_ip-Returns ipv6_link_local_multicast ws hs live =
    multicast ipv6_link_local_multicast refl (unfold multicast_scope in omega arith)
      (λ b h. unfold multicast_scope in h) ws hs live
fill_ip-Returns ipv6_realm_local_multicast ws hs live =
    multicast ipv6_realm_local_multicast refl (unfold multicast_scope in omega arith)
      (λ b h. unfold multicast_scope in h) ws hs live
fill_ip-Returns ipv6_admin_local_multicast ws hs live =
    multicast ipv6_admin_local_multicast refl (unfold multicast_scope in omega arith)
      (λ b h. unfold multicast_scope in h) ws hs live
fill_ip-Returns ipv6_site_local_multicast ws hs live =
    multicast ipv6_site_local_multicast refl (unfold multicast_scope in omega arith)
      (λ b h. unfold multicast_scope in h) ws hs live
fill_ip-Returns ipv6_org_local_multicast ws hs live =
    multicast ipv6_org_local_multicast refl (unfold multicast_scope in omega arith)
      (λ b h. unfold multicast_scope in h) ws hs live
fill_ip-Returns ipv6_global_multicast ws hs live =
    multicast ipv6_global_multicast refl (unfold multicast_scope in omega arith)
      (λ b h. unfold multicast_scope in h) ws hs live
fill_ip-Returns ipv4_any [] hs live = absurd (omega arith)
fill_ip-Returns ipv4_any (x ∷ ws) hs live = (plain_ipv4 ipv4_any x refl (λ b. tt), hs.1)
fill_ip-Returns unknown [] hs live = absurd (omega arith)
fill_ip-Returns unknown (x ∷ ws) hs live = (plain_ipv4 unknown x refl (λ b. tt), hs.1)
