-- ===== src/Provider/Reader/Words.antt =====
-- A reader's words: what `Sum64` and `Sum` take from the stream, and what fills a buffer.
use randomizer.Base.{
  ℕ, zero, suc, ◌+◌, ◌*◌, ◌≤◌, ◌<◌, ◌≡◌, refl, ap, ◌∙◌, ◌⊎◌, inl, inr, List, [], ◌∷◌, ◌++◌, arith,
  leb, leb→le, Bool-cases, length, take, drop, length-take, All-take, All, u8, IsByte, ◌>>>◌,
  Option-cases,
}
use randomizer.Provider.{put_tail}
use randomizer.Provider.Reader.{
  Failure, Chunk, reader_read, Outcome, value, panics, demand, map_outcome, little_endian,
  reader_sum, reader_sum32, reader_sum64,
}
use randomizer.Provider.Reader.Stream.{stream_of, reader_read_lem}

take-take : (a b : ℕ) (xs : List ℕ) → a ≤ b → take a (take b xs) ≡ take a xs
take-take zero b xs h = refl
take-take (suc a) zero xs h = absurd (omega arith)
take-take (suc a) (suc b) [] h = refl
take-take (suc a) (suc b) (x ∷ xs) h = ap (◌∷◌ x) (take-take a b xs (omega arith))

pub take-add : (b a : ℕ) (xs : List ℕ) → take b xs ++ take a (drop b xs) ≡ take (b + a) xs
take-add zero a xs = let e : 0 + a ≡ a = omega arith in rw e refl
take-add (suc b) a [] = let e : suc b + a ≡ suc (b + a) = omega arith in rw e (take_nil a)
  where
    take_nil : (a : ℕ) → take {A = ℕ} a [] ≡ []
    take_nil zero = refl
    take_nil (suc a) = refl
take-add (suc b) a (x ∷ xs) =
    let e : suc b + a ≡ suc (b + a) = omega arith in rw e (ap (◌∷◌ x) (take-add b a xs))

-- The bytes of the number that bytes stand for are those bytes.
put_tail-little_endian :
    (k : ℕ) (bs : List ℕ)
    → All IsByte bs
    → k ≤ length bs
    → put_tail k (little_endian bs) ≡ take k bs
unfolding put_tail
put_tail-little_endian zero bs h le = refl
put_tail-little_endian (suc k) [] h le = absurd (omega arith)
put_tail-little_endian (suc k) (b ∷ bs) h le =
    let low : u8 (b + 256 * little_endian bs) ≡ b = omega arith in
    let high : (b + 256 * little_endian bs) >>> 8 ≡ little_endian bs = omega arith in
    rw (low, high) (ap (◌∷◌ b) (put_tail-little_endian k bs h.1 (omega arith)))

module _ (n : ℕ) (chunks : List Chunk) where
  pub demand_full :
      n ≤ length (stream_of chunks)
      → demand (reader_read n chunks)
        ≡ value (take n (stream_of chunks)) (reader_read n chunks).left
  unfolding demand
  demand_full le = let (front, fine, _) = reader_read_lem n chunks in rw (fine.1 le) (rw front refl)

  demand_short :
      length (stream_of chunks) < n → (f : Failure) × (demand (reader_read n chunks) ≡ panics f)
  unfolding demand
  demand_short lt = elim (Option-cases (reader_read n chunks).failure) [
    | inl fine ↦ absurd (omega (arith, (reader_read_lem n chunks).1.0 fine))
    | inr (f, e) ↦ (f, rw e refl)
  ]

pub front_bytes :
    (k n : ℕ) (xs : List ℕ)
    → All IsByte xs
    → k ≤ n
    → n ≤ length xs
    → put_tail k (little_endian (take n xs)) ≡ take k xs
front_bytes k n xs bytes le enough =
    put_tail-little_endian k (take n xs) (All-take IsByte n xs bytes)
      (omega (arith, length-take n xs))
    ∙ take-take k n xs le

-- A number of `n` bytes is the next of the stream, lowest first, with the rest of the stream left
-- if there is a rest; the panic says that the stream ends or fails before that.
abbrev pub ReadsNumber : ℕ → List Chunk → Outcome ℕ → Type 0
ReadsNumber n chunks (value x left) =
    (n ≤ length (stream_of chunks))
    × (x ≡ little_endian (take n (stream_of chunks)))
    × ((length (stream_of chunks) ≤ n) ⊎ (stream_of left ≡ drop n (stream_of chunks)))
ReadsNumber n chunks (panics f) = length (stream_of chunks) < n

demand-ReadsNumber :
    (n : ℕ) (chunks : List Chunk)
    → ReadsNumber n chunks (map_outcome little_endian (demand (reader_read n chunks)))
demand-ReadsNumber n chunks = elim (Bool-cases (leb n (length (stream_of chunks)))) [
  | inl enough ↦
      let le = leb→le _ _ enough in
      rw (demand_full n chunks le) (le, refl, (reader_read_lem n chunks).2)
  | inr short ↦
      let lt : length (stream_of chunks) < n = ground arith in
      let (f, e) = demand_short n chunks lt in rw e lt
]

append_word :
    (chunks : List Chunk) (b : List ℕ)
    → All IsByte (stream_of chunks)
    → map_outcome (λ bytes. b ++ bytes) (demand (reader_read 8 chunks))
      ≡ map_outcome
          (λ x. b ++ put_tail 8 x)
          (map_outcome little_endian (demand (reader_read 8 chunks)))
append_word chunks b bytes = elim (Bool-cases (leb 8 (length (stream_of chunks)))) [
  | inl enough ↦
      let le = leb→le _ _ enough in
      rw (demand_full 8 chunks le)
        (rw (front_bytes 8 8 (stream_of chunks) bytes (omega arith) le) refl)
  | inr short ↦
      let lt : length (stream_of chunks) < 8 = ground arith in
      let (f, e) = demand_short 8 chunks lt in rw e refl
]

-- For a reader of bytes, Sum64 and Sum32 give the number that the next eight and the next four bytes
-- of its stream stand for, lowest first, and leave the rest; they panic exactly where the stream ends
-- or fails before that. Sum appends the bytes of the word that Sum64 would have given, or panics
-- with it.
pub reader_sums :
    (chunks : List Chunk) (b : List ℕ)
    → All IsByte (stream_of chunks)
    → ReadsNumber 8 chunks (reader_sum64 chunks)
      × ReadsNumber 4 chunks (reader_sum32 chunks)
      × (reader_sum b chunks ≡ map_outcome (λ x. b ++ put_tail 8 x) (reader_sum64 chunks))
unfolding reader_sum64 reader_sum reader_sum32
reader_sums chunks b bytes =
    (demand-ReadsNumber 8 chunks, demand-ReadsNumber 4 chunks, append_word chunks b bytes)
