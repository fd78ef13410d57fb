-- ===== src/Provider/Reader.antt =====
-- provider.go: `readerProvider`, whose words are the bytes of a reader. The reader is a parameter: the
-- chunks that it is going to hand out, each with the error that comes with its last byte; behind
-- them it is at its end.
pub mod Stream
pub mod Words
pub mod Filling
use randomizer.Base.{
  ℕ, zero, suc, ◌+◌, ◌-◌, ◌*◌, Option, none, some, List, [], ◌∷◌, ◌++◌, ltb, leb, ◌==◌,
  if◌then◌else◌, length, take, drop,
}

pub data Failure : Type 0 where
  eof unexpected_eof : Failure
  failed : ℕ → Failure

pub record Chunk : Type 0 where
  pub content : List ℕ
  pub failure : Option Failure

-- What a read gives: the bytes, the error, and what the reader still holds.
pub record Got : Type 0 where
  pub content : List ℕ
  pub failure : Option Failure
  pub left : List Chunk

abbrev pub add_front : List ℕ → Got → Got
add_front b g = record { content = b ++ g.content; failure = g.failure; left = g.left }

-- The loop of `io.ReadFull` over calls of `Read`, each of which takes one chunk or a part of it.
unfoldable pub read_loop : ℕ → List Chunk → Got
read_loop zero chunks = record { content = []; failure = none; left = chunks }
read_loop (suc room) [] = record { content = []; failure = some eof; left = [] }
read_loop (suc room) (c ∷ chunks) =
    let part : Got = record {
      content = take (suc room) c.content;
      failure = none;
      left = record { content = drop (suc room) c.content; failure = c.failure } ∷ chunks;
    } in
    let more : Got = add_front c.content (read_loop (suc room - length c.content) chunks) in
    let stopped : Got = record { content = c.content; failure = c.failure; left = chunks } in
    if ltb (suc room) (length c.content)
    then part
    else elim c.failure [ none ↦ more | some f ↦ stopped ]

-- An error is dropped where the buffer is full, and an end behind the first byte is unexpected.
unfoldable pub settled : ℕ → ℕ → Option Failure → Option Failure
settled n got none = none
settled n got (some eof) =
    if leb n got then none else if got == 0 then some eof else some unexpected_eof
settled n got (some unexpected_eof) = if leb n got then none else some unexpected_eof
settled n got (some (failed e)) = if leb n got then none else some (failed e)

-- `Read`, by `io.ReadFull`.
unfoldable pub reader_read : ℕ → List Chunk → Got
unfolding read_loop settled
reader_read n chunks =
    let g = read_loop n chunks in
    record { content = g.content; failure = settled n (length g.content) g.failure; left = g.left }

-- A value, or the panic with an error.
pub data Outcome {ℓ} (A : Type ℓ) : Type ℓ where
  value : A → List Chunk → Outcome A
  panics : Failure → Outcome A

unfoldable pub demand : Got → Outcome (List ℕ)
demand g = elim g.failure [ none ↦ value g.content g.left | some f ↦ panics f ]

abbrev pub map_outcome {ℓ κ} : {A : Type ℓ} {B : Type κ} → (A → B) → Outcome A → Outcome B
map_outcome f (value a left) = value (f a) left
map_outcome f (panics e) = panics e

-- `binary.LittleEndian`: the number that bytes stand for, lowest first.
abbrev pub little_endian : List ℕ → ℕ
little_endian [] = 0
little_endian (b ∷ bs) = b + 256 * little_endian bs

unfoldable pub reader_sum : List ℕ → List Chunk → Outcome (List ℕ)
reader_sum b chunks = map_outcome (λ bytes. b ++ bytes) (demand (reader_read 8 chunks))

unfoldable pub reader_sum32 : List Chunk → Outcome ℕ
reader_sum32 chunks = map_outcome little_endian (demand (reader_read 4 chunks))

unfoldable pub reader_sum64 : List Chunk → Outcome ℕ
reader_sum64 chunks = map_outcome little_endian (demand (reader_read 8 chunks))

-- `NewReaderProvider`: no provider for a nil reader.
unfoldable pub new_reader_provider : Option (List Chunk) → Option (List Chunk)
new_reader_provider none = none
new_reader_provider (some chunks) = some chunks
