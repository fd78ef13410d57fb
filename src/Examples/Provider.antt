-- ===== src/Examples/Provider.antt =====
-- provider.go and hashpool.go on concrete seeds.
use randomizer.Base.{
  ℕ, ◌≤◌, ◌≡◌, refl, ◌≢◌, ◌↔◌, ◌⊎◌, none, some, List, [], ◌∷◌, ◌++◌, arith, length, get_or, drop,
  All,
}
use randomizer.Base.Int.{pos}
use randomizer.Provider.{fill_random_bytes}
use randomizer.Provider.SplitMix.{sum64_of, new_hash_pool, pool_read}
use randomizer.Provider.SplitMix.Distinct.{values, serve-distinct}
use randomizer.Provider.SplitMix.Stream.{
  stream, counter_after, words_of, read_seed, pool_read-fill_random,
}
use randomizer.Provider.Active.{set_provider}
use mathlib.Core.Option
use randomizer.Provider.{put_tail}
use randomizer.Provider.Reader.{
  unexpected_eof, failed, Chunk, reader_read, demand, value, map_outcome, reader_sum, reader_sum32,
  reader_sum64,
}
use randomizer.Provider.Reader.Stream.{stream_of, reader_read_lem}
use randomizer.Provider.Reader.Words.{ReadsNumber, reader_sums}
use randomizer.Provider.Reader.Filling.{reader_words, fill_random-reader}
use randomizer.Provider.Pool.{new_hash, get, put, take_pooled}
use randomizer.Provider.Pool.Counts.{count}
use randomizer.Provider.Pool.Reach.{
  Users, here, next, gets, writes, puts, Reach, no_hashes, get-Reach,
}

-- The first output of SplitMix64 from the seed 0.
known_value : (sum64_of 0).0 ≡ 0xe220a8397b1dcdaf
unfolding sum64_of
known_value = refl

no_pool : new_hash_pool (pos 0) 5 ≡ none
unfolding new_hash_pool
no_pool = refl

abbrev seven : ℕ
seven = 7

abbrev callers : List ℕ
callers = 0 ∷ 1 ∷ 0 ∷ []

serve-distinct_example : get_or (values callers 99) 0 0 ≢ get_or (values callers 99) 2 0
serve-distinct_example = serve-distinct callers 99 0 2 (omega arith) (omega arith) (omega arith)

pool_read-fill_random_example :
    (fill_random_bytes 3 (stream (words_of 3) (read_seed 0 none) ++ (1 ∷ []))
      ≡ some ((pool_read 0 3 none).0, 1 ∷ []))
    × ((pool_read 0 3 none).1 ≡ Option.map (counter_after (words_of 3)) none)
pool_read-fill_random_example = pool_read-fill_random 0 3 none (1 ∷ [])

-- A nil provider asks for the default one.
swaps_the_slot : (set_provider seven (some 5) 9 ≡ (9, 5)) × (set_provider seven none 9 ≡ (9, seven))
unfolding set_provider
swaps_the_slot = (refl, refl)

-- A stream of twelve bytes in three chunks, one of them empty, and an error behind it.
abbrev chunks : List Chunk
chunks =
    record { content = 1 ∷ 2 ∷ 3 ∷ []; failure = none }
    ∷ record { content = []; failure = none }
    ∷ record { content = 4 ∷ 5 ∷ 6 ∷ 7 ∷ 8 ∷ 9 ∷ 10 ∷ 11 ∷ 12 ∷ []; failure = some (failed 5) }
    ∷ []

word_of_reader :
    reader_sum64 chunks
    ≡ value 0x0807060504030201
        (record { content = 9 ∷ 10 ∷ 11 ∷ 12 ∷ []; failure = some (failed 5) } ∷ [])
unfolding reader_sum64 reader_read demand
word_of_reader = refl

short_read : (reader_read 13 chunks).failure ≡ some (failed 5)
unfolding reader_read
short_read = refl

early_end :
    (reader_read 4 (record { content = 1 ∷ []; failure = none } ∷ [])).failure ≡ some unexpected_eof
unfolding reader_read
early_end = refl

reader_read_lem_example :
    ((reader_read 5 chunks).content ≡ 1 ∷ 2 ∷ 3 ∷ 4 ∷ 5 ∷ [])
    × (((reader_read 5 chunks).failure ≡ none) ↔ (5 ≤ length (stream_of chunks)))
    × ((length (stream_of chunks) ≤ 5)
        ⊎ (stream_of (reader_read 5 chunks).left ≡ drop 5 (stream_of chunks)))
unfolding stream_of
reader_read_lem_example = reader_read_lem 5 chunks

reader_sums_example :
    ReadsNumber 8 chunks (reader_sum64 chunks)
    × ReadsNumber 4 chunks (reader_sum32 chunks)
    × (reader_sum (7 ∷ []) chunks
        ≡ map_outcome (λ x. (7 ∷ []) ++ put_tail 8 x) (reader_sum64 chunks))
unfolding stream_of
reader_sums_example = reader_sums chunks (7 ∷ []) (omega arith)

fill_random-reader_example :
    (ws : List ℕ) × (left : List Chunk) × (reader_words (words_of 5) chunks ≡ value ws left)
    × (fill_random_bytes 5 ws ≡ some (1 ∷ 2 ∷ 3 ∷ 4 ∷ 5 ∷ [], []))
    × ((reader_read 5 chunks).content ≡ 1 ∷ 2 ∷ 3 ∷ 4 ∷ 5 ∷ [])
    × ((reader_read 5 chunks).failure ≡ none)
unfolding stream_of
fill_random-reader_example = fill_random-reader 5 chunks (omega arith) (omega arith)

-- A user that has got a hash, written to it and given it back.
abbrev one_back : Users
one_back = record {
  pooled = record { object = 0; seed = 9; written = [] } ∷ [];
  held = [];
  made = 1;
}

one_back-Reach : Reach no_hashes one_back
unfolding get put take_pooled
one_back-Reach =
    next
      (next (next here (gets no_hashes 0 9 (new_hash 0 9) [] refl))
        (writes _ 0 (new_hash 0 9) (1 ∷ []) refl))
      (puts _ 0 (record { object = 0; seed = 9; written = 1 ∷ [] }) _ refl refl)

get-Reach_example :
    All (λ h. h.written ≡ []) one_back.pooled
    × ((get (some one_back.pooled) 0 (new_hash 1 4)).0.written ≡ [])
    × (count (get (some one_back.pooled) 0 (new_hash 1 4)).0.object one_back.held ≡ 0)
get-Reach_example = get-Reach one_back 0 4 one_back-Reach
