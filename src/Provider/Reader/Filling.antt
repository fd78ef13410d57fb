-- ===== src/Provider/Reader/Filling.antt =====
-- What fills a buffer from a reader's words.
use randomizer.Base.{
  ℕ, zero, suc, ◌+◌, ◌*◌, ◌/◌, ◌%◌, ◌<◌, ◌≡◌, refl, sym, ap, ◌∙◌, inl, inr, false, none, some, List,
  [], ◌∷◌, ◌++◌, arith, ◌==◌, if◌then◌else◌, length, take, drop, length-drop, All-drop, All, IsByte,
}
use mathlib.Core.Path.{ap₂}
use mathlib.Core.List.{append_assoc}
use randomizer.Provider.{put_tail, fill_words, fill_rest, fill_random_bytes}
use randomizer.Provider.SplitMix.Stream.{words_of}
use randomizer.Provider.Reader.{
  Chunk, reader_read, Outcome, value, panics, map_outcome, little_endian, reader_sum64,
}
use randomizer.Provider.Reader.Stream.{stream_of, reader_read_lem}
use randomizer.Provider.Reader.Words.{demand_full, take-add, front_bytes}

-- Successive `Sum64` calls.
unfoldable pub reader_words : ℕ → List Chunk → Outcome (List ℕ)
reader_words zero chunks = value [] chunks
reader_words (suc k) chunks = elim (reader_sum64 chunks) [
  | value x left ↦ map_outcome (λ ws. x ∷ ws) (reader_words k left)
  | panics f ↦ panics f
]

reader_words_step :
    (k x : ℕ) (chunks left : List Chunk) (r : Outcome (List ℕ))
    → reader_sum64 chunks ≡ value x left
    → reader_words k left ≡ r
    → reader_words (suc k) chunks ≡ map_outcome (λ ws. x ∷ ws) r
unfolding reader_words
reader_words_step k x chunks left r e rest = rw (e, reader_words) (rw rest refl)

abbrev tail_size : ℕ → ℕ
tail_size r = if r == 0 then 0 else 1

-- Words for `k` times eight bytes and `r` more, and what is filled from them.
record Fills (k r : ℕ) (chunks : List Chunk) : Type 0 where
  words : List ℕ
  left : List Chunk
  whole : List ℕ
  middle : List ℕ
  rest : List ℕ
  drawn : reader_words (k + tail_size r) chunks ≡ value words left
  first : fill_words k words ≡ some (whole, middle)
  last : fill_rest r middle ≡ some (rest, [])
  filled : whole ++ rest ≡ take (8 * k + r) (stream_of chunks)

sum64_front :
    (chunks : List Chunk)
    → All IsByte (stream_of chunks)
    → 8 < length (stream_of chunks)
    → reader_sum64 chunks
      ≡ value (little_endian (take 8 (stream_of chunks))) (reader_read 8 chunks).left
unfolding reader_sum64
sum64_front chunks bytes lt = rw (demand_full 8 chunks (omega arith)) refl

reader_words-Fills :
    (k r : ℕ) (chunks : List Chunk)
    → r < 8
    → All IsByte (stream_of chunks)
    → 8 * (k + tail_size r) < length (stream_of chunks)
    → Fills k r chunks
unfolding reader_words fill_words fill_rest
reader_words-Fills zero zero chunks hr bytes lt = record {
  words = [];
  left = chunks;
  whole = [];
  middle = [];
  rest = [];
  drawn = refl;
  first = refl;
  last = refl;
  filled = refl;
}
reader_words-Fills zero (suc r) chunks hr bytes lt =
    let S = stream_of chunks in
    let x = little_endian (take 8 S) in
    let one : (suc r == 0) ≡ false = ground arith in
    let lt8 : 8 < length S = rw one at lt in
    let count : 0 + tail_size (suc r) ≡ suc zero = ground arith in
    let size : 8 * 0 + suc r ≡ suc r = omega arith in
    record {
      words = x ∷ [];
      left = (reader_read 8 chunks).left;
      whole = [];
      middle = x ∷ [];
      rest = put_tail (suc r) x;
      drawn = rw count (reader_words_step zero x chunks _ _ (sum64_front chunks bytes lt8) refl);
      first = refl;
      last = refl;
      filled = rw size (front_bytes (suc r) 8 S bytes (omega arith) (omega arith));
    }
reader_words-Fills (suc k) r chunks hr bytes lt =
    let S = stream_of chunks in
    let x = little_endian (take 8 S) in
    let lt8 : 8 < length S = ground arith in
    let behind = (reader_read 8 chunks).left in
    let same : stream_of behind ≡ drop 8 S = elim (reader_read_lem 8 chunks).2 [
      | inl le ↦ absurd (omega arith)
      | inr e ↦ e
    ] in
    let ih =
      reader_words-Fills k r behind hr (rw same (All-drop IsByte 8 S bytes))
        (ground (arith, ap length same, length-drop 8 S)) in
    let next : suc k + tail_size r ≡ suc (k + tail_size r) = omega arith in
    let sizes : 8 * suc k + r ≡ 8 + (8 * k + r) = omega arith in
    record {
      words = x ∷ ih.words;
      left = ih.left;
      whole = put_tail 8 x ++ ih.whole;
      middle = ih.middle;
      rest = ih.rest;
      drawn = rw next (
          reader_words_step (k + tail_size r) x chunks behind _ (sum64_front chunks bytes lt8)
            ih.drawn);
      first = rw ih.first refl;
      last = ih.last;
      filled =
          append_assoc (put_tail 8 x) ih.whole ih.rest
          ∙ ap₂ ◌++◌ (front_bytes 8 8 S bytes (omega arith) (omega arith))
              (ih.filled ∙ ap (take (8 * k + r)) same)
          ∙ take-add 8 (8 * k + r) S
          ∙ ap (λ t. take t S) (sym sizes);
    }

-- Where the stream of a reader holds more than eight bytes for every eight begun of `n`, filling a
-- buffer of `n` bytes from the words of successive Sum64 calls gives the same bytes as Read: the
-- next `n` of the stream.
pub fill_random-reader :
    (n : ℕ) (chunks : List Chunk)
    → All IsByte (stream_of chunks)
    → 8 * words_of n < length (stream_of chunks)
    → (ws : List ℕ) × (left : List Chunk) × (reader_words (words_of n) chunks ≡ value ws left)
      × (fill_random_bytes n ws ≡ some (take n (stream_of chunks), []))
      × ((reader_read n chunks).content ≡ take n (stream_of chunks))
      × ((reader_read n chunks).failure ≡ none)
unfolding fill_random_bytes
fill_random-reader n chunks bytes lt =
    let f = reader_words-Fills (n / 8) (n % 8) chunks (omega arith) bytes lt in
    let size : 8 * (n / 8) + n % 8 ≡ n = omega arith in
    let (front, fine, _) = reader_read_lem n chunks in
    (
      f.words,
      f.left,
      f.drawn,
      rw (f.first, f.last, f.filled, size) refl,
      front,
      fine.1 (ground arith),
    )
