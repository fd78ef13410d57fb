-- ===== src/Netaddr/Inside.antt =====
-- `AddrIn` keeps the first bits of the prefix.
use randomizer.Base.{
  ℕ, ◌-◌, ◌*◌, ◌/◌, ◌^◌, ◌≤◌, ◌<◌, bit_and, ◌≡◌, refl, sym, ap, ◌∙◌, true, none, some, List, ◌∷◌,
  ◌++◌, arith, ◌==◌, ==_iff, holds_below, holds_below_each, length, take, drop, length-take,
  All-take, length-drop, All-drop, big_endian-put_uint32, big_endian-put_uint64, All, u32, IsByte,
  IsU64, and_not, put_uint32, put_uint64, big_endian,
}
use native.Mathlib.Nat.{one-le-pow, mod-eq_of_lt, div-lt_iff_lt-mul, mul-div_cancel}
use randomizer.Base.Bits.{bit_and_field}
use randomizer.Base.Bits.Merge.{merge_lem, merge-lt}
use randomizer.Cidr.{host_bits}
use randomizer.Cidr.Inside.{four_bytes, eight_bytes}
use randomizer.Netaddr.{
  Addr, zero_addr, from4, from16, ones32_shl, ones64_shl, hi_mask, lo_mask, addr_in,
}

-- `^0 << k` in as many bits as the word has, for every shift that occurs.
ones_tables :
    (holds_below (λ k. ones32_shl k == (2 ^ (32 - k) - 1) * 2 ^ k) 33 ≡ true)
    × (holds_below (λ k. ones64_shl k == (2 ^ (64 - k) - 1) * 2 ^ k) 65 ≡ true)
    × (holds_below (λ k. 2 ^ (32 - k) * 2 ^ k == 2 ^ 32) 33 ≡ true)
    × (holds_below (λ k. 2 ^ (64 - k) * 2 ^ k == 2 ^ 64) 65 ≡ true)
unfolding holds_below
ones_tables = (refl, refl, refl, refl)

-- Two words of `j + k` bits that agree under a mask of the high `j` bits agree in those bits.
same_high :
    (j k w v base m : ℕ)
    → m ≡ (2 ^ j - 1) * 2 ^ k
    → 2 ^ j * 2 ^ k ≡ w
    → v < w
    → base < w
    → bit_and v m ≡ bit_and base m
    → v / 2 ^ k ≡ base / 2 ^ k
same_high j k w v base m em ew hv hb e =
    sym (mul-div_cancel (v / 2 ^ k) pos)
    ∙ ap (λ t. t / 2 ^ k) same
    ∙ mul-div_cancel (base / 2 ^ k) pos
  where
    pos : 0 < 2 ^ k
    pos = one-le-pow k 2 (omega arith)

    field : (x : ℕ) → x < w → bit_and x m ≡ x / 2 ^ k * 2 ^ k
    field x hx =
        ap (bit_and x) em
        ∙ bit_and_field k j x
        ∙ ap (λ t. t * 2 ^ k)
            (mod-eq_of_lt ((div-lt_iff_lt-mul {k = 2 ^ k} {x = x} {y = 2 ^ j} pos).1 (rw ew hx)))

    same : v / 2 ^ k * 2 ^ k ≡ base / 2 ^ k * 2 ^ k
    same = sym (field v hv) ∙ e ∙ field base hb

-- An IPv4 address drawn in a prefix of `bits` bits, 32 at most, has those of the prefix, and behind
-- them the low bits of the word.
pub addr_in_v4 :
    (base ws : List ℕ) (bits x : ℕ)
    → length base ≡ 4
    → All IsByte base
    → bits ≤ 32
    → (v : ℕ) × (addr_in (record { addr = from4 base; bits = some bits }) (x ∷ ws)
        ≡ some (from4 (put_uint32 v), ws))
      × (big_endian (put_uint32 v) ≡ v)
      × (v / 2 ^ (32 - bits) ≡ big_endian base / 2 ^ (32 - bits))
      × (and_not v (ones32_shl (32 - bits)) ≡ and_not (u32 x) (ones32_shl (32 - bits)))
unfolding addr_in
addr_in_v4 base ws bits x len bytes le =
    let m = ones32_shl (32 - bits) in
    let v = host_bits (big_endian base) m (u32 x) in
    let b = four_bytes base len bytes in
    let v_lt : v < 2 ^ 32 = merge-lt 32 (big_endian base) (u32 x) m b (omega arith) in
    let kept = merge_lem (big_endian base) (u32 x) m in
    let table = (==_iff _ _).0 (holds_below_each _ 33 ones_tables.0 (32 - bits) (omega arith)) in
    let product = (==_iff _ _).0 (holds_below_each _ 33 ones_tables.2 (32 - bits) (omega arith)) in
    (
      v,
      refl,
      big_endian-put_uint32 v v_lt,
      same_high (32 - (32 - bits)) (32 - bits) (2 ^ 32) v (big_endian base) m table product v_lt b
          kept.0,
      kept.1,
    )

-- What of the two halves of an IPv6 address a prefix of `bits` bits fixes.
abbrev pub SharesPrefix : ℕ → ℕ → ℕ → ℕ → ℕ → Type 0
SharesPrefix bits base_hi base_lo hi lo =
    (bits ≤ 64 → hi / 2 ^ (64 - bits) ≡ base_hi / 2 ^ (64 - bits))
    × (64 < bits → (hi ≡ base_hi) × (lo / 2 ^ (128 - bits) ≡ base_lo / 2 ^ (128 - bits)))

-- An IPv6 address drawn in a prefix of `bits` bits, 128 at most, has those of the prefix, also where
-- they go on in the second half.
pub addr_in_v6 :
    (base ws : List ℕ) (bits x y : ℕ)
    → length base ≡ 16
    → All IsByte base
    → bits ≤ 128
    → IsU64 x
    → IsU64 y
    → (hi lo : ℕ) × (addr_in (record { addr = from16 base; bits = some bits }) (x ∷ y ∷ ws)
        ≡ some (from16 (put_uint64 hi ++ put_uint64 lo), ws))
      × (big_endian (put_uint64 hi) ≡ hi)
      × (big_endian (put_uint64 lo) ≡ lo)
      × SharesPrefix bits (big_endian (take 8 base)) (big_endian (drop 8 base)) hi lo
unfolding addr_in
addr_in_v6 base ws bits x y len bytes le hx hy =
    (hi, lo, refl, big_endian-put_uint64 hi hi_lt, big_endian-put_uint64 lo lo_lt, (short, long))
  where
    base_hi : ℕ
    base_hi = big_endian (take 8 base)

    base_lo : ℕ
    base_lo = big_endian (drop 8 base)

    hi : ℕ
    hi = host_bits base_hi (hi_mask bits) x

    lo : ℕ
    lo = host_bits base_lo (lo_mask bits) y

    base_hi_lt : base_hi < 2 ^ 64
    base_hi_lt =
        eight_bytes (take 8 base) (omega (arith, length-take 8 base)) (All-take IsByte 8 base bytes)

    base_lo_lt : base_lo < 2 ^ 64
    base_lo_lt =
        eight_bytes (drop 8 base) (omega (arith, length-drop 8 base)) (All-drop IsByte 8 base bytes)

    hi_lt : hi < 2 ^ 64
    hi_lt = merge-lt 64 base_hi x (hi_mask bits) base_hi_lt hx

    lo_lt : lo < 2 ^ 64
    lo_lt = merge-lt 64 base_lo y (lo_mask bits) base_lo_lt hy

    high :
        (k v b m : ℕ)
        → k ≤ 64
        → m ≡ ones64_shl k
        → v < 2 ^ 64
        → b < 2 ^ 64
        → bit_and v m ≡ bit_and b m
        → v / 2 ^ k ≡ b / 2 ^ k
    high k v b m hk em hv hb e =
        same_high (64 - k) k (2 ^ 64) v b m
          (em ∙ (==_iff _ _).0 (holds_below_each _ 65 ones_tables.1 k (omega arith)))
          ((==_iff _ _).0 (holds_below_each _ 65 ones_tables.3 k (omega arith))) hv hb e

    short : bits ≤ 64 → hi / 2 ^ (64 - bits) ≡ base_hi / 2 ^ (64 - bits)
    short h =
        high (64 - bits) hi base_hi (hi_mask bits) (omega arith) (ground arith) hi_lt base_hi_lt
          (merge_lem base_hi x (hi_mask bits)).0

    long : 64 < bits → (hi ≡ base_hi) × (lo / 2 ^ (128 - bits) ≡ base_lo / 2 ^ (128 - bits))
    long h = (
      omega (
        arith,
        high 0 hi base_hi (hi_mask bits) (omega arith) (ground arith) hi_lt base_hi_lt
            (merge_lem base_hi x (hi_mask bits)).0,
      ),
      high (128 - bits) lo base_lo (lo_mask bits) (omega arith) (ground arith) lo_lt base_lo_lt
          (merge_lem base_lo y (lo_mask bits)).0,
    )

-- An invalid prefix gives the zero address, and no word is drawn.
pub addr_in_rejects :
    (base : Addr) (ws : List ℕ)
    → addr_in (record { addr = base; bits = none }) ws ≡ some (zero_addr, ws)
unfolding addr_in
addr_in_rejects base ws = refl
