-- ===== src/Provider/SplitMix.antt =====
-- hashpool.go and provider.go: the SplitMix64 counter and the providers that share one.
pub mod Distinct
pub mod Stream
use randomizer.Base.{
  ℕ, zero, suc, ◌+◌, ◌*◌, ◌/◌, ◌%◌, bit_xor, Option, none, some, List, [], ◌∷◌, ◌++◌, ◌==◌,
  if◌then◌else◌, u32, u64, ◌>>>◌,
}
use randomizer.Base.Int.{ℤ, pos, negsuc}
use randomizer.Provider.{put_tail}

abbrev pub gamma : ℕ
gamma = 0x9e3779b97f4a7c15

unfoldable pub split_mix64 : ℕ → ℕ
split_mix64 x =
    let y = u64 (bit_xor x (x >>> 30) * 0xbf58476d1ce4e5b9) in
    let z = u64 (bit_xor y (y >>> 27) * 0x94d049bb133111eb) in bit_xor z (z >>> 31)

-- `state.Add(splitMixGamma)`, which gives the new value of the counter.
abbrev pub add_gamma : ℕ → ℕ
add_gamma state = u64 (state + gamma)

-- `Sum64` of `uint64Provider`: the value and the counter behind it.
unfoldable pub sum64_of : ℕ → ℕ × ℕ
unfolding split_mix64
sum64_of state = (split_mix64 (add_gamma state), add_gamma state)

unfoldable pub sum32_of : ℕ → ℕ × ℕ
unfolding sum64_of
sum32_of state = let (x, after) = sum64_of state in (u32 (x >>> 32), after)

-- `Sum`
unfoldable pub append_sum : List ℕ → ℕ → List ℕ × ℕ
unfolding sum64_of put_tail
append_sum b state = let (x, after) = sum64_of state in (b ++ put_tail 8 x, after)

-- `fillAtomicRandomBytes`: its loop, and the rest of the slice.
unfoldable pub fill_atomic_words : ℕ → ℕ → List ℕ × ℕ
unfolding split_mix64 put_tail
fill_atomic_words zero state = ([], state)
fill_atomic_words (suc rounds) state =
    let (rest, after) = fill_atomic_words rounds (add_gamma state) in
    (put_tail 8 (split_mix64 (add_gamma state)) ++ rest, after)

unfoldable pub fill_atomic_rest : ℕ → ℕ → List ℕ × ℕ
unfolding split_mix64 put_tail
fill_atomic_rest zero state = ([], state)
fill_atomic_rest (suc k) state = (put_tail (suc k) (split_mix64 (add_gamma state)), add_gamma state)

unfoldable pub fill_atomic_random_bytes : ℕ → ℕ → List ℕ × ℕ
unfolding fill_atomic_words fill_atomic_rest
fill_atomic_random_bytes n state =
    let (whole, behind) = fill_atomic_words (n / 8) state in
    let (rest, after) = fill_atomic_rest (n % 8) behind in (whole ++ rest, after)

-- `NewUint64Provider`: `none` is the nil source, and the source's number the first counter.
unfoldable pub new_uint64_provider : Option ℕ → Option ℕ
new_uint64_provider none = none
new_uint64_provider (some x) = some (u64 x)

-- `hashPool`: `none` is the nil pointer; `fresh` is what `maphash.Bytes(maphash.MakeSeed(), nil)`
-- gives at the call.
abbrev pub seed_of : ℕ → ℕ
seed_of fresh = if fresh == 0 then gamma else fresh

unfoldable pub new_hash_pool : ℤ → ℕ → Option ℕ
new_hash_pool (negsuc size) fresh = none
new_hash_pool (pos size) fresh = if size == 0 then none else some (seed_of fresh)

unfoldable pub pool_sum64 : ℕ → Option ℕ → ℕ × Option ℕ
unfolding split_mix64 sum64_of
pool_sum64 fresh none = (split_mix64 (u64 (fresh + gamma)), none)
pool_sum64 fresh (some state) = let (x, after) = sum64_of state in (x, some after)

unfoldable pub pool_sum32 : ℕ → Option ℕ → ℕ × Option ℕ
unfolding pool_sum64
pool_sum32 fresh pool = let (x, after) = pool_sum64 fresh pool in (u32 (x >>> 32), after)

unfoldable pub pool_sum : List ℕ → ℕ → Option ℕ → List ℕ × Option ℕ
unfolding pool_sum64 put_tail
pool_sum b fresh pool = let (x, after) = pool_sum64 fresh pool in (b ++ put_tail 8 x, after)

unfoldable pub pool_read : ℕ → ℕ → Option ℕ → List ℕ × Option ℕ
unfolding fill_atomic_random_bytes
pool_read fresh n none = let (b, after) = fill_atomic_random_bytes n (seed_of fresh) in (b, none)
pool_read fresh n (some state) =
    let (b, after) = fill_atomic_random_bytes n state in (b, some after)

-- Concurrent calls of `Sum64` on one counter: each takes effect at its `Add`, and `callers` names
-- who runs it, in that order.
unfoldable pub serve {ℓ} : {C : Type ℓ} → List C → ℕ → List (C × ℕ)
unfolding sum64_of
serve [] state = []
serve (c ∷ callers) state = let (x, after) = sum64_of state in (c, x) ∷ serve callers after
