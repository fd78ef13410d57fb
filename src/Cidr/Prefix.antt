-- ===== src/Cidr/Prefix.antt =====
-- The network prefixes of `CIDR`: host bits clear, the mask as long as the prefix.
use randomizer.Base.{
  ℕ, suc, ◌+◌, ◌-◌, ◌*◌, ◌/◌, ◌%◌, ◌≤◌, min, bit_and, ◌≡◌, refl, ◌∙◌, ◌≢◌, inl, inr, false, List,
  [], ◌∷◌, arith, ltb, leb, ◌==◌, if◌then◌else◌, Bool-cases, length, get_or, take, replicate, set,
  length-append, length-take, length-set, All-set, All-replicate, All-take, length-replicate, set,
  All, All-append, IsByte, IsU64, ◌>>>◌, pure, bind_result, Returns, Returns-bind,
}
use randomizer.Provider.{fill_random_bytes}
use randomizer.Provider.Fill.{IsFilled, fill_random_bytes-Returns}
use randomizer.Base.Bits.{bit_and-le, bit_and_mask}
use randomizer.Cidr.{
  CidrKind, ipv4_cidr, ipv6_cidr, ipv6_ula_prefix, unknown, prefix_len, clear_from, mask_host_bits,
  set_ones, fill_cidr_mask, byte_mask, ula_prefix, IpNet, cidr,
}
use randomizer.Cidr.Mask.{
  bit_at, get_or-zeros, zero_bit, length-set_ones, get_or-IsByte, bit_at-mask_host_bits,
  bit_at-fill_cidr_mask,
}

clear_from-IsFilled :
    (from n : ℕ) (ip : List ℕ) → from ≤ n → IsFilled n ip → IsFilled n (clear_from from ip)
unfolding clear_from
clear_from-IsFilled from n ip le h = (
  omega (
    arith,
    length-append (take from ip) (replicate (length ip - from) 0),
    length-take from ip,
    length-replicate {A = ℕ} (length ip - from) 0,
    h.0,
  ),
  All-append IsByte (take from ip) (replicate (length ip - from) 0) (All-take IsByte from ip h.1)
      (All-replicate IsByte (length ip - from) 0 (omega arith)),
)

pub mask_host_bits-IsFilled :
    (n bits : ℕ) (ip : List ℕ) → bits ≤ 8 * n → IsFilled n ip → IsFilled n (mask_host_bits ip bits)
unfolding mask_host_bits
mask_host_bits-IsFilled n bits ip le h = elim (Bool-cases (bit_and bits 7 == 0)) [
  | inl e ↦ rw e (clear_from-IsFilled (bits >>> 3) n ip (omega arith) h)
  | inr e ↦
      rw e (clear_from-IsFilled (bits >>> 3 + 1) n (set ip (bits >>> 3) partial) (room e) changed)
]
  where
    partial : ℕ
    partial = bit_and (get_or ip (bits >>> 3) 0) (byte_mask (bit_and bits 7))

    room : (bit_and bits 7 == 0) ≡ false → bits / 8 + 1 ≤ n
    room e = ground (arith, bit_and_mask 3 bits)

    changed : IsFilled n (set ip (bits >>> 3) partial)
    changed = (
      length-set ip (bits >>> 3) partial ∙ h.0,
      All-set IsByte ip (bits >>> 3) partial h.1 (
          omega (
            arith,
            bit_and-le (get_or ip (bits >>> 3) 0) (byte_mask (bit_and bits 7)),
            get_or-IsByte ip (bits >>> 3) h.1,
          )),
    )

-- The network that a kind asks for, with `len` bits of prefix on `n` bytes.
pub record IsNetwork (kind : CidrKind) (len n : ℕ) (net : IpNet) : Type 0 where
  pub ip_len : IsFilled n net.ip
  pub mask_len : length net.mask ≡ n
  pub host_clear : (i : ℕ) → len ≤ i → bit_at net.ip i ≡ 0
  pub mask_bits : (i : ℕ) → bit_at net.mask i ≡ (if ltb i len then 1 else 0)
  pub local : kind ≡ ipv6_ula_prefix → get_or net.ip 0 0 ≡ 0xfd

length-fill_cidr_mask : (n bits : ℕ) → length (fill_cidr_mask (replicate n 0) bits) ≡ n
unfolding fill_cidr_mask
length-fill_cidr_mask n bits = elim (Bool-cases (bit_and bits 7 == 0)) [
  | inl e ↦ rw e loop
  | inr e ↦ rw e (
      length-set (set_ones (bits >>> 3) 0 (replicate n 0)) (bits >>> 3) (byte_mask (bit_and bits 7))
      ∙ loop)
]
  where
    loop : length (set_ones (bits >>> 3) 0 (replicate n 0)) ≡ n
    loop = length-set_ones (bits >>> 3) 0 (replicate n 0) ∙ length-replicate {A = ℕ} n 0

-- A filled address under a mask of the same length.
masked :
    (kind : CidrKind) (len n : ℕ) (ip : List ℕ)
    → len ≤ 8 * n
    → kind ≢ ipv6_ula_prefix
    → IsFilled n ip
    → IsNetwork kind len n
        (record { ip = mask_host_bits ip len; mask = fill_cidr_mask (replicate n 0) len })
masked kind len n ip le other h = record {
  ip_len = mask_host_bits-IsFilled n len ip le h;
  mask_len = length-fill_cidr_mask n len;
  host_clear = λ i out. ground (arith, bit_at-mask_host_bits ip len i h.1 (omega (arith, h.0)));
  mask_bits = λ i. bit_at-fill_cidr_mask n len i le;
  local = λ e. absurd (other e);
}

ula_tail : (x j : ℕ) → 6 ≤ j → get_or (ula_prefix 16 x) j 0 ≡ 0
unfolding ula_prefix
ula_tail x (suc (suc (suc (suc (suc (suc j)))))) h = get_or-zeros 10 j
ula_tail x _ h = absurd (omega arith)

ula :
    (x : ℕ)
    → IsNetwork ipv6_ula_prefix 48 16
        (record { ip = ula_prefix 16 x; mask = fill_cidr_mask (replicate 16 0) 48 })
ula x = record {
  ip_len = unfold ula_prefix in (refl, omega arith);
  mask_len = length-fill_cidr_mask 16 48;
  host_clear = λ i out. rw (ula_tail x (i / 8) (omega arith)) (zero_bit (i % 8));
  mask_bits = λ i. bit_at-fill_cidr_mask 16 48 i (omega arith);
  local = λ e. unfold ula_prefix in refl;
}

drawn :
    (kind : CidrKind) (len n : ℕ) (ws : List ℕ)
    → len ≤ 8 * n
    → kind ≢ ipv6_ula_prefix
    → All IsU64 ws
    → n ≤ 8 * length ws
    → Returns (IsNetwork kind len n) (
        bind_result
          (bind_result (fill_random_bytes n ws) (λ ip. pure (mask_host_bits ip len)))
          (λ ip. pure (record { ip = ip; mask = fill_cidr_mask (replicate n 0) len })))
drawn kind len n ws le other hs live =
    Returns-bind
      (λ ip. IsNetwork kind len n (record { ip = ip; mask = fill_cidr_mask (replicate n 0) len }))
      (IsNetwork kind len n) _ _
      (Returns-bind (IsFilled n) _ (fill_random_bytes n ws) _
        (fill_random_bytes-Returns n ws hs live)
        (λ ip rest h hr. (masked kind len n ip le other h, hr)))
      (λ ip rest h hr. (h, hr))

-- The bytes of an address of the kind, and the prefix length that a request for `bits` comes to.
abbrev pub address_bytes : CidrKind → ℕ
address_bytes ipv6_cidr = 16
address_bytes ipv6_ula_prefix = 16
address_bytes _ = 4

abbrev pub clamped : CidrKind → ℕ → ℕ
clamped ipv6_ula_prefix bits = 48
clamped kind bits = if leb bits (8 * address_bytes kind) then bits else 8 * address_bytes kind

-- On enough words `CIDR` gives a network of the kind with the requested prefix length clamped to
-- the 32 bits of an IPv4 address and the 128 bits of an IPv6 address: 4 or 16 bytes, a mask of
-- exactly as many leading ones, and no bit of the address set behind them. A unique-local prefix is
-- a /48 that starts with 0xfd, whatever length is requested.
pub cidr-Returns :
    (kind : CidrKind) (bits : ℕ) (ws : List ℕ)
    → All IsU64 ws
    → address_bytes kind ≤ 8 * length ws
    → Returns (IsNetwork kind (clamped kind bits) (address_bytes kind)) (cidr kind bits ws)
unfolding cidr prefix_len
cidr-Returns ipv4_cidr bits ws hs live =
    let len : min bits 32 ≡ clamped ipv4_cidr bits = ground arith in
    rw len (drawn ipv4_cidr (clamped ipv4_cidr bits) 4 ws (ground arith) (λ e. cc) hs live)
cidr-Returns ipv6_cidr bits ws hs live =
    let len : min bits 128 ≡ clamped ipv6_cidr bits = ground arith in
    rw len (drawn ipv6_cidr (clamped ipv6_cidr bits) 16 ws (ground arith) (λ e. cc) hs live)
cidr-Returns unknown bits ws hs live =
    let len : min bits 32 ≡ clamped unknown bits = ground arith in
    rw len (drawn unknown (clamped unknown bits) 4 ws (ground arith) (λ e. cc) hs live)
cidr-Returns ipv6_ula_prefix bits [] hs live = absurd (omega arith)
cidr-Returns ipv6_ula_prefix bits (x ∷ ws) hs live = (ula x, hs.1)
