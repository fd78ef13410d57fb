-- ===== src/Provider.antt =====
-- provider.go: how bytes are filled from random words.
pub mod Fill
pub mod SplitMix
pub mod Active
pub mod Reader
pub mod Pool
use randomizer.Base.{
  ℕ, zero, suc, ◌/◌, ◌%◌, List, [], ◌∷◌, ◌++◌, u8, u32, ◌>>>◌, Draw, pure, ◌>>=◌, ◌>>◌, sum64,
}

-- The bytes of a word, lowest first: `putTail` on a slice of `k` bytes, and for 8 bytes
-- `binary.LittleEndian.PutUint64`.
unfoldable pub put_tail : ℕ → ℕ → List ℕ
put_tail zero x = []
put_tail (suc k) x = u8 x ∷ put_tail k (x >>> 8)

-- The loop over whole words, `rounds` of them.
unfoldable pub fill_words : ℕ → Draw (List ℕ)
unfolding put_tail
fill_words zero = pure []
fill_words (suc rounds) = do x ← sum64; rest ← fill_words rounds; pure (put_tail 8 x ++ rest)

-- What is left after the whole words takes one more, if there is anything left.
unfoldable pub fill_rest : ℕ → Draw (List ℕ)
unfolding put_tail
fill_rest zero = pure []
fill_rest (suc k) = do x ← sum64; pure (put_tail (suc k) x)

-- Fills `n` bytes. The runtime provider is read by the same loop, over its own words.
unfoldable pub fill_random_bytes : ℕ → Draw (List ℕ)
unfolding fill_words fill_rest
fill_random_bytes n = do whole ← fill_words (n / 8); rest ← fill_rest (n % 8); pure (whole ++ rest)

-- `Sum32` and `Sum` of the runtime provider, over its own words.
unfoldable pub runtime_sum32 : Draw ℕ
runtime_sum32 = do x ← sum64; pure (u32 (x >>> 32))

unfoldable pub runtime_sum : List ℕ → Draw (List ℕ)
unfolding put_tail
runtime_sum b = do x ← sum64; pure (b ++ put_tail 8 x)
