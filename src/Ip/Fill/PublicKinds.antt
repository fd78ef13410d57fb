-- ===== src/Ip/Fill/PublicKinds.antt =====
-- `fillIP` for the public kinds, whose loops draw until an address is outside the special blocks.
use randomizer.Base.{
  ℕ, ◌+◌, ◌/◌, ◌%◌, ◌^◌, bit_or, ◌≡◌, refl, inl, inr, true, false, some, List, [], ◌∷◌, ◌++◌, arith,
  Bool-cases, big_endian-put_uint32, All, Any, Any-map, AnyThen-map, Any-AnyThen, u32, IsU32, IsU64,
  ◌<<<◌, ◌>>>◌, and_not, put_uint32, put_uint64, pure, bind_result, sum64, ◌>>=◌, Returns,
  Returns-bind, draw_until, draw_until-Returns, IsFound, draw_until-Leaves, Returns-bind_Leaves,
}
use randomizer.Ip.{ipv4_public, ipv6_public, ip_len}
use randomizer.Base.Bits.{bit_and_field, bit_or_fields_swap}
use randomizer.Ip.Public.{is_public_ipv4, is_public_ipv6}
use randomizer.Ip.Public.Blocks.{
  IsSpecialIpv4, IsSpecialIpv6, is_public_ipv4-IsSpecialIpv4, is_public_ipv6-IsSpecialIpv6,
}
use randomizer.Ip.Fill.Spec.{hi64, lo64, IsAnycast, IsAddress, Supplies}
use randomizer.Ip.Fill.{
  public_in, public_ipv4, public_choice, public_hi_in, public_lo_in, public_ipv6,
}

hi64-put_uint64 : (hi lo : ℕ) → IsU64 hi → hi64 (put_uint64 hi ++ put_uint64 lo) ≡ hi
unfolding put_uint64
hi64-put_uint64 hi lo h = omega arith

lo64-put_uint64 : (hi lo : ℕ) → IsU64 lo → lo64 (put_uint64 hi ++ put_uint64 lo) ≡ lo
unfolding put_uint64
lo64-put_uint64 hi lo h = omega arith

-- A 32-bit address that the test of the code calls public.
abbrev IsPublic : ℕ → Type 0
IsPublic a = IsU32 a × (is_public_ipv4 a ≡ true)

not_special : (a : ℕ) → IsPublic a → ¬ IsSpecialIpv4 a
not_special a p s = cc (p.1, (is_public_ipv4-IsSpecialIpv4 a p.0).1 s)

public_of : (a : ℕ) → IsU32 a → ¬ IsSpecialIpv4 a → is_public_ipv4 a ≡ true
public_of a h n = elim (Bool-cases (is_public_ipv4 a)) [
  | inl e ↦ e
  | inr e ↦ absurd (n ((is_public_ipv4-IsSpecialIpv4 a h).0 e))
]

put_uint32-IsAddress : (a : ℕ) → IsPublic a → IsAddress ipv4_public (put_uint32 a)
put_uint32-IsAddress a p = record {
  len = unfold put_uint32 ip_len in refl;
  bytes = unfold put_uint32 in omega arith;
  kind_of = rw (big_endian-put_uint32 a p.0) (not_special a p);
}

public_in-IsPublic : (x a : ℕ) → IsU64 x → public_in (u32 x) ≡ some a → IsPublic a
unfolding public_in
public_in-IsPublic x a h e = ground arith

public_in-IsFound : (x : ℕ) → ¬ IsSpecialIpv4 (x % 2 ^ 32) → IsFound (public_in (u32 x))
unfolding public_in
public_in-IsFound x n = rw (public_of (u32 x) (omega arith) n) tt

public_choice-Returns :
    (x : ℕ) (ws : List ℕ)
    → All IsU64 ws
    → Any (λ y. ¬ IsSpecialIpv4 (y % 2 ^ 32)) (x ∷ ws)
    → Returns IsPublic (public_choice x ws)
unfolding public_choice
public_choice-Returns x ws hs live = elim (Bool-cases (is_public_ipv4 (u32 x))) [
  | inl e ↦ rw e ((omega arith, e), hs)
  | inr e ↦ rw e (elim (Bool-cases (is_public_ipv4 (u32 (x >>> 32)))) [
    | inl g ↦ rw g ((omega arith, g), hs)
    | inr g ↦ rw g (redraw ws hs (later e live))
  ])
]
  where
    redraw :
        (ws : List ℕ)
        → All IsU64 ws
        → Any (λ y. ¬ IsSpecialIpv4 (y % 2 ^ 32)) ws
        → Returns IsPublic (bind_result (sum64 ws) (draw_until (λ y. public_in (u32 y))))
    redraw [] hs live = absurd live
    redraw (w ∷ ws) hs live =
        draw_until-Returns IsPublic (λ y. public_in (u32 y)) w ws public_in-IsPublic hs.0 hs.1
          (Any-map _ _ (w ∷ ws) public_in-IsFound live)

    later :
        is_public_ipv4 (u32 x) ≡ false
        → Any (λ y. ¬ IsSpecialIpv4 (y % 2 ^ 32)) (x ∷ ws)
        → Any (λ y. ¬ IsSpecialIpv4 (y % 2 ^ 32)) ws
    later e (inl n) = absurd (n ((is_public_ipv4-IsSpecialIpv4 (u32 x) (omega arith)).0 e))
    later e (inr h) = h

-- The high half of a public IPv6 address: 2000::/3 with the low 61 bits of the word.
high_half : (x : ℕ) → IsU64 x → bit_or (and_not x (7 <<< 61)) (1 <<< 61) ≡ 2 ^ 61 + x % 2 ^ 61
high_half x h =
    let e = bit_and_field 61 3 x in
    let f : and_not x (7 <<< 61) ≡ x % 2 ^ 61 = omega (arith, e) in
    rw f (bit_or_fields_swap 61 1 (x % 2 ^ 61) (omega arith))

abbrev IsHigh : ℕ → Type 0
IsHigh hi = IsU64 hi × (hi / 2 ^ 61 ≡ 1) × ¬ IsSpecialIpv6 hi

public_hi_in-IsHigh : (x a : ℕ) → IsU64 x → public_hi_in x ≡ some a → IsHigh a
unfolding public_hi_in
public_hi_in-IsHigh x a h e = (
  omega (arith, found.0),
  omega (arith, found.0),
  λ s. cc (found.1, (is_public_ipv6-IsSpecialIpv6 a).1 s),
)
  where
    found : (a ≡ 2 ^ 61 + x % 2 ^ 61) × (is_public_ipv6 a ≡ true)
    found = ground (arith, high_half x h)

public_lo_in-IsAnycast : (x a : ℕ) → IsU64 x → public_lo_in x ≡ some a → IsU64 a × ¬ IsAnycast a
unfolding public_lo_in
public_lo_in-IsAnycast x a h e = (ground arith, λ s. ground arith)

public_hi_in-IsFound :
    (x : ℕ) → IsU64 x → ¬ IsSpecialIpv6 (2 ^ 61 + x % 2 ^ 61) → IsFound (public_hi_in x)
unfolding public_hi_in
public_hi_in-IsFound x h n =
    rw (high_half x h) (elim (Bool-cases (is_public_ipv6 (2 ^ 61 + x % 2 ^ 61))) [
      | inl e ↦ rw e tt
      | inr e ↦ absurd (n ((is_public_ipv6-IsSpecialIpv6 _).0 e))
    ])

public_lo_in-IsFound : (x : ℕ) → ¬ IsAnycast x → IsFound (public_lo_in x)
unfolding public_lo_in
public_lo_in-IsFound x n = ground arith

pub public_ipv4-Returns :
    (ws : List ℕ)
    → All IsU64 ws
    → Supplies ipv4_public ws
    → Returns (IsAddress ipv4_public) (public_ipv4 ws)
unfolding public_ipv4
public_ipv4-Returns [] hs live = absurd live
public_ipv4-Returns (x ∷ ws) hs live =
    Returns-bind IsPublic (IsAddress ipv4_public) (public_choice x ws) _
      (public_choice-Returns x ws hs.1 live) (λ a rest p hr. (put_uint32-IsAddress a p, hr))

put_uint64-IsAddress :
    (hi lo : ℕ)
    → IsHigh hi
    → IsU64 lo × ¬ IsAnycast lo
    → IsAddress ipv6_public (put_uint64 hi ++ put_uint64 lo)
put_uint64-IsAddress hi lo p q = record {
  len = unfold put_uint64 ip_len in refl;
  bytes = unfold put_uint64 in omega arith;
  kind_of = rw (hi64-put_uint64 hi lo p.0, lo64-put_uint64 hi lo q.0) (p.1, p.2, q.1);
}

-- The low half, once the words behind the high half are drawn.
low_half :
    (hi : ℕ) (ws : List ℕ)
    → IsHigh hi
    → All IsU64 ws
    → Any (λ y. IsFound (public_lo_in y)) ws
    → Returns (IsAddress ipv6_public) (
        bind_result
          (sum64 ws)
          (λ y. draw_until public_lo_in y >>= λ lo. pure (put_uint64 hi ++ put_uint64 lo)))
low_half hi [] p hs live = absurd live
low_half hi (y ∷ ws) p hs live =
    Returns-bind (λ lo. IsU64 lo × ¬ IsAnycast lo) (IsAddress ipv6_public)
      (draw_until public_lo_in y ws) _
      (draw_until-Returns _ public_lo_in y ws public_lo_in-IsAnycast hs.0 hs.1 live)
      (λ lo rest q hr. (put_uint64-IsAddress hi lo p q, hr))

pub public_ipv6-Returns :
    (ws : List ℕ)
    → All IsU64 ws
    → Supplies ipv6_public ws
    → Returns (IsAddress ipv6_public) (public_ipv6 ws)
unfolding public_ipv6
public_ipv6-Returns [] hs live = absurd live
public_ipv6-Returns (x ∷ ws) hs live =
    let fed =
      AnyThen-map IsU64 _ (λ y. IsFound (public_hi_in y)) _ (λ y. IsFound (public_lo_in y)) (x ∷ ws)
        public_hi_in-IsFound public_lo_in-IsFound hs live in
    Returns-bind_Leaves IsHigh (λ y. IsFound (public_lo_in y)) (IsAddress ipv6_public)
      (draw_until public_hi_in x ws) _
      (draw_until-Returns IsHigh public_hi_in x ws public_hi_in-IsHigh hs.0 hs.1
        (Any-AnyThen _ _ (x ∷ ws) fed))
      (draw_until-Leaves _ public_hi_in x ws fed) (λ hi rest p hr l. low_half hi rest p hr l)
