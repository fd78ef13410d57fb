-- ===== src/Netaddr.antt =====
-- netaddr.go: the same addresses and prefixes as `netip` values.
pub mod Inside
use randomizer.Base.{
  ℕ, ◌-◌, ◌^◌, Option, none, some, List, ◌++◌, leb, ◌==◌, if◌then◌else◌, take, drop, u32, u64,
  ◌<<<◌, put_uint32, put_uint64, big_endian, Draw, pure, ◌>>=◌, ◌>>◌, sum64,
}
use randomizer.Ip.{IpKind, ip_len}
use randomizer.Ip.Fill.{fill_ip}
use randomizer.Cidr.{CidrKind, prefix_len, fill_prefix, host_bits}

-- `netip.Addr`; `zero_addr` is its zero value.
pub data Addr : Type 0 where
  zero_addr : Addr
  from4 : List ℕ → Addr
  from16 : List ℕ → Addr

-- `netip.Prefix`: `bits` is `none` where the prefix is not valid.
pub record NetPrefix : Type 0 where
  pub addr : Addr
  pub bits : Option ℕ

addr_of : ℕ → List ℕ → Addr
addr_of n b = if n == 4 then from4 b else from16 b

unfoldable pub addr : IpKind → Draw Addr
unfolding addr_of fill_ip ip_len
addr kind = do b ← fill_ip kind; pure (addr_of (ip_len kind) b)

unfoldable pub net_prefix : CidrKind → ℕ → Draw NetPrefix
unfolding addr_of prefix_len fill_prefix
net_prefix kind bits =
    let (len, n) = prefix_len kind bits in
    do b ← fill_prefix n kind len; pure (record { addr = addr_of n b; bits = some len })

-- `^uint32(0) << k` and `^uint64(0) << k`.
abbrev pub ones32_shl : ℕ → ℕ
ones32_shl k = u32 ((2 ^ 32 - 1) <<< k)

abbrev pub ones64_shl : ℕ → ℕ
ones64_shl k = u64 ((2 ^ 64 - 1) <<< k)

abbrev pub hi_mask : ℕ → ℕ
hi_mask bits = if leb bits 64 then ones64_shl (64 - bits) else 2 ^ 64 - 1

abbrev pub lo_mask : ℕ → ℕ
lo_mask bits = if leb bits 64 then 0 else ones64_shl (128 - bits)

in4 : List ℕ → ℕ → Draw Addr
unfolding put_uint32
in4 base bits = do
  x ← sum64
  pure (from4 (put_uint32 (host_bits (big_endian base) (ones32_shl (32 - bits)) (u32 x))))

in16 : List ℕ → ℕ → Draw Addr
unfolding put_uint64
in16 base bits = do
  x ← sum64
  y ← sum64
  pure (
      from16 (
        put_uint64 (host_bits (big_endian (take 8 base)) (hi_mask bits) x)
        ++ put_uint64 (host_bits (big_endian (drop 8 base)) (lo_mask bits) y)))

in_addr : Addr → ℕ → Draw Addr
unfolding in4 in16
in_addr zero_addr bits = pure zero_addr
in_addr (from4 base) bits = in4 base bits
in_addr (from16 base) bits = in16 base bits

in_bits : Addr → Option ℕ → Draw Addr
unfolding in_addr
in_bits base none = pure zero_addr
in_bits base (some bits) = in_addr base bits

unfoldable pub addr_in : NetPrefix → Draw Addr
unfolding in_bits
addr_in prefix = in_bits prefix.addr prefix.bits
