-- ===== src/Provider/Reader/Stream.antt =====
-- A reader's chunks as one stream of bytes.
use randomizer.Base.{
  ℕ, zero, suc, ◌-◌, ◌≤◌, ◌<◌, min, ◌≡◌, refl, sym, ap, ◌∙◌, ◌↔◌, ◌⊎◌, inl, inr, Option, none, some,
  List, [], ◌∷◌, ◌++◌, arith, ltb, ltb→lt, ltb→le, Bool-cases, length, take, drop, length-append,
  length-take, Option-cases,
}
use mathlib.Core.List.{append-nil}
use randomizer.Provider.Reader.{
  Failure, eof, unexpected_eof, failed, Chunk, Got, read_loop, settled, reader_read,
}

-- The bytes up to the first error, however they are cut into chunks.
unfoldable pub stream_of : List Chunk → List ℕ
stream_of [] = []
stream_of (c ∷ chunks) = c.content ++ elim c.failure [ none ↦ stream_of chunks | some f ↦ [] ]

take_append_long : (n : ℕ) (xs ys : List ℕ) → n < length xs → take n (xs ++ ys) ≡ take n xs
take_append_long zero xs ys h = refl
take_append_long (suc n) [] ys h = absurd (omega arith)
take_append_long (suc n) (x ∷ xs) ys h = ap (◌∷◌ x) (take_append_long n xs ys (omega arith))

take_append_short :
    (n : ℕ) (xs ys : List ℕ) → length xs ≤ n → take n (xs ++ ys) ≡ xs ++ take (n - length xs) ys
take_append_short n [] ys h = let e : n - 0 ≡ n = omega arith in rw e refl
take_append_short zero (x ∷ xs) ys h = absurd (omega arith)
take_append_short (suc n) (x ∷ xs) ys h =
    let e : suc n - suc (length xs) ≡ n - length xs = omega arith in
    rw e (ap (◌∷◌ x) (take_append_short n xs ys (omega arith)))

drop_append_long : (n : ℕ) (xs ys : List ℕ) → n < length xs → drop n (xs ++ ys) ≡ drop n xs ++ ys
drop_append_long zero xs ys h = refl
drop_append_long (suc n) [] ys h = absurd (omega arith)
drop_append_long (suc n) (x ∷ xs) ys h = drop_append_long n xs ys (omega arith)

drop_append_short :
    (n : ℕ) (xs ys : List ℕ) → length xs ≤ n → drop n (xs ++ ys) ≡ drop (n - length xs) ys
drop_append_short n [] ys h = let e : n - 0 ≡ n = omega arith in rw e refl
drop_append_short zero (x ∷ xs) ys h = absurd (omega arith)
drop_append_short (suc n) (x ∷ xs) ys h =
    let e : suc n - suc (length xs) ≡ n - length xs = omega arith in
    rw e (drop_append_short n xs ys (omega arith))

take_all : (n : ℕ) (xs : List ℕ) → length xs ≤ n → take n xs ≡ xs
take_all zero [] h = refl
take_all zero (x ∷ xs) h = absurd (omega arith)
take_all (suc n) [] h = refl
take_all (suc n) (x ∷ xs) h = ap (◌∷◌ x) (take_all n xs (omega arith))

-- The loop reads the stream from its front, and stops short only with an error. What it leaves is
-- the rest of the stream, if the stream holds more than was asked for.
record ReadsFront (n : ℕ) (chunks : List Chunk) (g : Got) : Type 0 where
  front : g.content ≡ take n (stream_of chunks)
  enough : g.failure ≡ none → n ≤ length (stream_of chunks)
  rest : n < length (stream_of chunks) → stream_of g.left ≡ drop n (stream_of chunks)

read_loop-ReadsFront : (n : ℕ) (chunks : List Chunk) → ReadsFront n chunks (read_loop n chunks)
unfolding read_loop stream_of
read_loop-ReadsFront zero chunks = record {
  front = refl;
  enough = λ e. omega arith;
  rest = λ h. refl;
}
read_loop-ReadsFront (suc room) [] = record {
  front = refl;
  enough = λ e. cc;
  rest = λ h. absurd (omega arith);
}
read_loop-ReadsFront (suc room) (c ∷ chunks) =
    let n = suc room in
    let size = length c.content in
    elim (Bool-cases (ltb n size)) [
      | inl long ↦
          let lt : n < size = ltb→lt _ _ long in
          rw long (record {
            front = sym (take_append_long n c.content _ lt);
            enough = λ e. omega (arith, length-append {0} c.content);
            rest = λ h. sym (drop_append_long n c.content _ lt);
          })
      | inr short ↦
          let le : size ≤ n = ltb→le _ _ short in
          elim (Option-cases c.failure) [
            | inl fine ↦
                let ih = read_loop-ReadsFront (n - size) chunks in
                rw (short, fine)
                  (record {
                    front =
                        ap (λ t. c.content ++ t) ih.front
                        ∙ sym (take_append_short n c.content (stream_of chunks) le);
                    enough =
                        λ e. omega (arith, ih.enough e, length-append c.content (stream_of chunks));
                    rest = λ h.
                        ih.rest (omega (arith, h, length-append c.content (stream_of chunks)))
                        ∙ sym (drop_append_short n c.content (stream_of chunks) le);
                  })
            | inr (f, broken) ↦
                rw (short, broken)
                  (record {
                    front = sym (
                        take_all n (c.content ++ []) (omega (arith, length-append c.content []))
                        ∙ append-nil c.content);
                    enough = λ e. cc;
                    rest = λ h. absurd (omega (arith, h, length-append c.content []));
                  })
          ]
    ]

settled_iff : (n got : ℕ) (f : Option Failure) → (settled n got f ≡ none) ↔ (n ≤ got) ⊎ (f ≡ none)
unfolding settled
settled_iff n got none = (λ e. inr refl, λ e. refl)
settled_iff n got (some eof) = ground arith
settled_iff n got (some unexpected_eof) = ground arith
settled_iff n got (some (failed e)) = ground arith

-- Read of a reader gives the bytes that its stream starts with, up to the first error, whatever the
-- chunks that the reader cuts the stream into. It reports no error exactly if the stream has the
-- bytes that were asked for, and if the stream has more, what is left is the rest of it.
pub reader_read_lem :
    (n : ℕ) (chunks : List Chunk)
    → ((reader_read n chunks).content ≡ take n (stream_of chunks))
      × (((reader_read n chunks).failure ≡ none) ↔ (n ≤ length (stream_of chunks)))
      × ((length (stream_of chunks) ≤ n)
          ⊎ (stream_of (reader_read n chunks).left ≡ drop n (stream_of chunks)))
unfolding reader_read
reader_read_lem n chunks =
    let g = read_loop n chunks in
    let r = read_loop-ReadsFront n chunks in
    let got : length g.content ≡ min n (length (stream_of chunks)) =
      ap length r.front ∙ length-take n (stream_of chunks) in
    let iff = settled_iff n (length g.content) g.failure in
    (
      r.front,
      (
        λ e. elim (iff.0 e) [ inl le ↦ omega arith | inr fine ↦ r.enough fine ],
        λ le. iff.1 (inl (omega arith)),
      ),
      elim (Bool-cases (ltb n (length (stream_of chunks)))) [
        | inl more ↦ inr (r.rest (ltb→lt _ _ more))
        | inr all ↦ inl (ltb→le _ _ all)
      ],
    )
