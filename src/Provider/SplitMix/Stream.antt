-- ===== src/Provider/SplitMix/Stream.antt =====
-- Filling a buffer from the counter.
use randomizer.Base.{
  ℕ, zero, suc, ◌+◌, ◌/◌, ◌%◌, ◌≡◌, refl, sym, ap, ◌∙◌, false, Option, none, some, List, [], ◌∷◌,
  ◌++◌, arith, ◌==◌, if◌then◌else◌,
}
use mathlib.Core.List.{append_assoc}
use mathlib.Core.Option
use randomizer.Provider.{fill_words, fill_rest, fill_random_bytes}
use randomizer.Provider.SplitMix.{
  add_gamma, sum64_of, fill_atomic_words, fill_atomic_rest, fill_atomic_random_bytes, seed_of,
  pool_read,
}

-- The words that successive `Sum64` calls give, and the counter behind them.
unfoldable pub stream : ℕ → ℕ → List ℕ
stream zero s = []
stream (suc k) s = (sum64_of s).0 ∷ stream k (sum64_of s).1

unfoldable pub counter_after : ℕ → ℕ → ℕ
counter_after zero s = s
counter_after (suc k) s = counter_after k (sum64_of s).1

-- A word for every eight bytes begun.
abbrev pub words_of : ℕ → ℕ
words_of n = n / 8 + (if n % 8 == 0 then 0 else 1)

fill_atomic_words_lem :
    (k s : ℕ) (ws : List ℕ)
    → (fill_words k (stream k s ++ ws) ≡ some ((fill_atomic_words k s).0, ws))
      × ((fill_atomic_words k s).1 ≡ counter_after k s)
unfolding fill_words fill_atomic_words stream counter_after sum64_of
fill_atomic_words_lem zero s ws = (refl, refl)
fill_atomic_words_lem (suc k) s ws =
    let ih = fill_atomic_words_lem k (add_gamma s) ws in (rw ih.0 refl, ih.1)

stream-append : (j k s : ℕ) → stream (j + k) s ≡ stream j s ++ stream k (counter_after j s)
unfolding stream counter_after
stream-append zero k s = let e : 0 + k ≡ k = omega arith in ap (λ t. stream t s) e
stream-append (suc j) k s =
    let e : suc j + k ≡ suc (j + k) = omega arith in
    ap (λ t. stream t s) e ∙ ap (λ t. (sum64_of s).0 ∷ t) (stream-append j k (sum64_of s).1)

counter_after-add : (j k s : ℕ) → counter_after (j + k) s ≡ counter_after k (counter_after j s)
unfolding counter_after
counter_after-add zero k s = let e : 0 + k ≡ k = omega arith in ap (λ t. counter_after t s) e
counter_after-add (suc j) k s =
    let e : suc j + k ≡ suc (j + k) = omega arith in
    ap (λ t. counter_after t s) e ∙ counter_after-add j k (sum64_of s).1

fill_atomic_rest_lem :
    (r s : ℕ) (ws : List ℕ)
    → (fill_rest r (stream (if r == 0 then 0 else 1) s ++ ws) ≡ some ((fill_atomic_rest r s).0, ws))
      × ((fill_atomic_rest r s).1 ≡ counter_after (if r == 0 then 0 else 1) s)
unfolding fill_rest fill_atomic_rest stream counter_after sum64_of
fill_atomic_rest_lem zero s ws = (refl, refl)
fill_atomic_rest_lem (suc r) s ws = let e : (suc r == 0) ≡ false = ground arith in rw e (refl, refl)

-- `fillAtomicRandomBytes` is `fillRandomBytes` on the words that `Sum64` would have given: it
-- writes the same bytes, and leaves the counter where those calls would have left it.
pub fill_atomic-fill_random :
    (n s : ℕ) (ws : List ℕ)
    → (fill_random_bytes n (stream (words_of n) s ++ ws)
        ≡ some ((fill_atomic_random_bytes n s).0, ws))
      × ((fill_atomic_random_bytes n s).1 ≡ counter_after (words_of n) s)
unfolding fill_random_bytes fill_atomic_random_bytes
fill_atomic-fill_random n s ws =
    let one = if n % 8 == 0 then 0 else 1 in
    let behind = counter_after (n / 8) s in
    let whole = fill_atomic_words_lem (n / 8) s (stream one behind ++ ws) in
    let rest = fill_atomic_rest_lem (n % 8) behind ws in
    (
      rw
          (
            stream-append (n / 8) one s,
            append_assoc (stream (n / 8) s) (stream one behind) ws,
            whole.0,
            rest.0,
            whole.1,
          )
          refl,
      rw (whole.1) (rest.1 ∙ sym (counter_after-add (n / 8) one s)),
    )

-- The counter that a `Read` of the pool starts from.
abbrev pub read_seed : ℕ → Option ℕ → ℕ
read_seed fresh none = seed_of fresh
read_seed fresh (some state) = state

-- `Read` of a pool writes the words of its counter, or of a fresh one where the pool is nil, and
-- moves the counter of the pool on by as many steps as it took words.
pub pool_read-fill_random :
    (fresh n : ℕ) (pool : Option ℕ) (ws : List ℕ)
    → (fill_random_bytes n (stream (words_of n) (read_seed fresh pool) ++ ws)
        ≡ some ((pool_read fresh n pool).0, ws))
      × ((pool_read fresh n pool).1 ≡ Option.map (counter_after (words_of n)) pool)
unfolding pool_read
pool_read-fill_random fresh n none ws = ((fill_atomic-fill_random n (seed_of fresh) ws).0, refl)
pool_read-fill_random fresh n (some state) ws =
    let h = fill_atomic-fill_random n state ws in (h.0, ap some h.1)
