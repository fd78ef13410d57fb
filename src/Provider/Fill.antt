-- ===== src/Provider/Fill.antt =====
-- The bytes that are filled from random words.
use randomizer.Base.{
  ℕ, zero, suc, ◌*◌, ◌/◌, ◌%◌, ◌≤◌, ◌≡◌, refl, some, List, [], ◌∷◌, ◌++◌, arith, length, drop,
  length-append, length-drop, All-drop, All, All-append, IsByte, IsU64, ◌>>>◌, Returns,
  Returns-bind,
}
use randomizer.Provider.{put_tail, fill_words, fill_rest, fill_random_bytes}

put_tail-IsByte : (k x : ℕ) → (length (put_tail k x) ≡ k) × All IsByte (put_tail k x)
unfolding put_tail
put_tail-IsByte zero x = (refl, tt)
put_tail-IsByte (suc k) x =
    let ih = put_tail-IsByte k (x >>> 8) in (omega (arith, ih.0), (omega arith, ih.1))

abbrev pub IsFilled : ℕ → List ℕ → Type 0
IsFilled n b = (length b ≡ n) × All IsByte b

fill_words-Returns :
    (rounds : ℕ) (ws : List ℕ)
    → All IsU64 ws
    → rounds ≤ length ws
    → (b : List ℕ) × (fill_words rounds ws ≡ some (b, drop rounds ws)) × IsFilled (8 * rounds) b
unfolding fill_words
fill_words-Returns zero ws hs live = ([], refl, (refl, tt))
fill_words-Returns (suc rounds) [] hs live = absurd (omega arith)
fill_words-Returns (suc rounds) (x ∷ ws) hs live =
    let ih = fill_words-Returns rounds ws hs.1 (omega arith) in
    let p = put_tail-IsByte 8 x in
    (
      put_tail 8 x ++ ih.0,
      rw ih.1 refl,
      (
        omega (arith, length-append (put_tail 8 x) ih.0, p.0, ih.2),
        All-append IsByte (put_tail 8 x) ih.0 p.1 ih.2.1,
      ),
    )

fill_rest-Returns :
    (k : ℕ) (ws : List ℕ) → All IsU64 ws → k ≤ 8 * length ws → Returns (IsFilled k) (fill_rest k ws)
unfolding fill_rest
fill_rest-Returns zero ws hs live = ((refl, tt), hs)
fill_rest-Returns (suc k) [] hs live = absurd (omega arith)
fill_rest-Returns (suc k) (x ∷ ws) hs live = (put_tail-IsByte (suc k) x, hs.1)

-- With a 64-bit word for every eight bytes begun, filling a buffer ends with as many bytes as it has.
pub fill_random_bytes-Returns :
    (n : ℕ) (ws : List ℕ)
    → All IsU64 ws
    → n ≤ 8 * length ws
    → Returns (IsFilled n) (fill_random_bytes n ws)
unfolding fill_random_bytes
fill_random_bytes-Returns n ws hs live =
    let whole = fill_words-Returns (n / 8) ws hs (omega arith) in
    rw whole.1 (
      Returns-bind (IsFilled (n % 8)) (IsFilled n) (fill_rest (n % 8) (drop (n / 8) ws)) _
        (fill_rest-Returns (n % 8) (drop (n / 8) ws) (All-drop IsU64 (n / 8) ws hs)
          (omega (arith, length-drop (n / 8) ws)))
        (λ rest left h hr. (
          (
            omega (arith, length-append whole.0 rest, whole.2, h),
            All-append IsByte whole.0 rest whole.2.1 h.1,
          ),
          hr,
        )))
