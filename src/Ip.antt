-- ===== src/Ip.antt =====
-- ip.go: the kinds of addresses and how each is filled. A branch writes the whole buffer, so
-- that what it held before is no argument, and the result is the list of its bytes.
pub mod Public
pub mod Fill
pub mod Eui
use randomizer.Base.{ℕ}

-- `IPv6Private` is `ipv6_unique_local`; `unknown` is any kind beyond the declared ones.
pub data IpKind : Type 0 where
  ipv4_any ipv4_private ipv4_link_local ipv4_multicast ipv4_public : IpKind
  ipv6_any ipv6_global ipv6_link_local ipv6_site_local ipv6_unique_local : IpKind
  ipv6_interface_local_multicast ipv6_link_local_multicast ipv6_admin_local_multicast : IpKind
  ipv6_site_local_multicast ipv6_org_local_multicast ipv6_global_multicast : IpKind
  ipv4_loopback ipv4_cgnat ipv4_documentation : IpKind
  ipv6_documentation ipv6_public ipv6_realm_local_multicast unknown : IpKind

unfoldable pub ip_len : IpKind → ℕ
ip_len ipv6_any = 16
ip_len ipv6_global = 16
ip_len ipv6_link_local = 16
ip_len ipv6_site_local = 16
ip_len ipv6_unique_local = 16
ip_len ipv6_interface_local_multicast = 16
ip_len ipv6_link_local_multicast = 16
ip_len ipv6_admin_local_multicast = 16
ip_len ipv6_site_local_multicast = 16
ip_len ipv6_org_local_multicast = 16
ip_len ipv6_global_multicast = 16
ip_len ipv6_documentation = 16
ip_len ipv6_public = 16
ip_len ipv6_realm_local_multicast = 16
ip_len _ = 4

unfoldable pub multicast_scope : IpKind → ℕ
multicast_scope ipv6_interface_local_multicast = 0x1
multicast_scope ipv6_link_local_multicast = 0x2
multicast_scope ipv6_realm_local_multicast = 0x3
multicast_scope ipv6_admin_local_multicast = 0x4
multicast_scope ipv6_site_local_multicast = 0x5
multicast_scope ipv6_org_local_multicast = 0x8
multicast_scope _ = 0xe
