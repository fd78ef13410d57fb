-- ===== src/Word/Custom/Ends.antt =====
-- `appendCustom` can end, for every dictionary that it serves.
use randomizer.Base.{
  ℕ, suc, ◌^◌, ◌≤◌, ◌<◌, ◌≡◌, refl, ◌⊎◌, inl, inr, Option, none, some, List, [], ◌∷◌, ◌++◌, arith,
  ltb, leb, Bool-cases, length, get_or, All, IsU64, pure, bind_result, Returns, IsFound, Ensures,
}
use randomizer.Base.Int.{pos}
use randomizer.Number.{bounded_from}
use randomizer.Word.{fill_behind, fill_batches, fill_batched_no_repeat}
use randomizer.Word.Custom.{
  wide_rounds, wide_behind, fill_wide_no_repeat, grown, fill_custom, append_sized, append_custom,
}
use randomizer.Word.Custom.Result.{Extends, goes_on, length-grown}
use randomizer.Word.Lives.{last_word, last_word_lem, bounded_from-last_word}
use randomizer.Word.Lives.Fill.{Varied, Ends, fill_behind-Ends, wide_rounds-Ends}
use randomizer.Word.Custom.Outcome.{append_custom-Ensures, CanServe, CanServe-Serves}

-- A first position from its last word, and the words that serve the bytes behind it.
module _ (dict : List ℕ) (some_symbol : 0 < length dict) (few : length dict < 2 ^ 63) where
  pub bind-IsFound :
      (i : ℕ) (r : Option (List ℕ × List ℕ))
      → IsFound r
      → IsFound (bind_result r (λ rest. pure (get_or dict i 0 ∷ rest)))
  bind-IsFound i none h = h
  bind-IsFound i (some (a, ws)) h = tt

  first_taken :
      (ws : List ℕ) → bounded_from (last_word (length dict) 0) (length dict) ws ≡ some (0, ws)
  first_taken ws = bounded_from-last_word (length dict) 0 some_symbol (omega arith) some_symbol ws

  first_fits : IsU64 (last_word (length dict) 0)
  first_fits = (last_word_lem (length dict) 0 some_symbol (omega arith) some_symbol).0

  behind_none : Ends (fill_behind [] dict 0)
  unfolding fill_behind fill_batches
  behind_none = elim (Bool-cases (ltb (length dict) 2)) [
    | inl e ↦ ([], tt, rw e tt)
    | inr e ↦ ([], tt, rw e tt)
  ]

  fill_batched-Ends :
      (buffer : List ℕ)
      → (length buffer ≤ 1) ⊎ Varied dict
      → Ends (fill_batched_no_repeat buffer dict)
  unfolding fill_batched_no_repeat
  fill_batched-Ends [] enough = ([], tt, tt)
  fill_batched-Ends (_ ∷ buffer) enough =
      let (ws, hs, ends) = behind buffer enough in
      (
        last_word (length dict) 0 ∷ ws,
        (first_fits, hs),
        rw (first_taken ws) (bind-IsFound 0 (fill_behind buffer dict 0 ws) ends),
      )
    where
      behind :
          (buffer : List ℕ)
          → (suc (length buffer) ≤ 1) ⊎ Varied dict
          → Ends (fill_behind buffer dict 0)
      behind [] enough = behind_none
      behind (c ∷ cs) (inl le) = absurd (omega arith)
      behind (c ∷ cs) (inr varied) = fill_behind-Ends dict varied few (c ∷ cs) 0 some_symbol

  fill_wide-Ends :
      (buffer : List ℕ) → (length buffer ≤ 1) ⊎ Varied dict → Ends (fill_wide_no_repeat buffer dict)
  unfolding fill_wide_no_repeat wide_behind wide_rounds
  fill_wide-Ends [] enough = ([], tt, tt)
  fill_wide-Ends (_ ∷ []) enough =
      (last_word (length dict) 0 ∷ [], (first_fits, tt), rw (first_taken []) tt)
  fill_wide-Ends (_ ∷ c ∷ cs) (inl le) = absurd (omega arith)
  fill_wide-Ends (_ ∷ c ∷ cs) (inr varied) =
      let room = suc (length cs) in
      let (ws, hs, ends) =
        wide_rounds-Ends dict varied few room (get_or dict 0 0) 0 (some_symbol, refl) in
      (
        last_word (length dict) 0 ∷ ws,
        (first_fits, hs),
        rw (first_taken ws)
            (bind-IsFound 0 (wide_rounds (length ws) dict room (get_or dict 0 0) 0 ws) ends),
      )

  fill_custom-Ends :
      (buffer : List ℕ) → (length buffer ≤ 1) ⊎ Varied dict → Ends (fill_custom buffer dict)
  unfolding fill_custom
  fill_custom-Ends buffer enough = elim (Bool-cases (leb (length dict) 256)) [
    | inl e ↦ rw e (fill_batched-Ends buffer enough)
    | inr e ↦ rw e (fill_wide-Ends buffer enough)
  ]

-- What is ensured, of a computation that returns.
pub Ensures-Returns {ℓ} :
    {A : Type ℓ} (P : A → Type 0) (r : Option (A × List ℕ)) → Ensures P r → IsFound r → Returns P r
Ensures-Returns P none e h = absurd h
Ensures-Returns P (some r) e h = e

pub append-IsFound :
    (dst : List ℕ) (r : Option (List ℕ × List ℕ))
    → IsFound r
    → IsFound (bind_result r (λ out. pure (dst ++ out)))
append-IsFound dst none h = h
append-IsFound dst (some (a, ws)) h = tt

append_sized-Ends :
    (dst spare dict : List ℕ) (n : ℕ)
    → length dict < 2 ^ 63
    → CanServe dict n
    → Ends (append_sized dst spare dict n)
unfolding append_sized
append_sized-Ends dst spare [] n few can = absurd (omega arith)
append_sized-Ends dst spare (first ∷ others) n few can =
    let (goes, _) = goes_on n first others (CanServe-Serves (first ∷ others) n can) in
    let size = length-grown spare n in
    let (ws, hs, ends) =
      fill_custom-Ends (first ∷ others) can.0 few (grown spare n) (rw size can.1) in
    (ws, hs, rw goes (append-IsFound dst (fill_custom (grown spare n) (first ∷ others) ws) ends))

-- For a length n of at least 1 and a dictionary that has a symbol, and two different ones if n is
-- more than 1: all that appendCustom returns on 64-bit words is dst followed by n symbols of the
-- dictionary of which no two neighbours are equal, for dictionaries on either side of 256 symbols
-- and whatever the spare capacity of dst holds; and there are 64-bit words on which it does return,
-- so that its loops, which redraw without a bound, can end.
pub append_custom-Ends :
    (dst spare dict : List ℕ) (n : ℕ) (ws : List ℕ)
    → length dict < 2 ^ 63
    → CanServe dict (suc n)
    → All IsU64 ws
    → Ensures (Extends dst dict (suc n)) (append_custom dst spare dict (pos (suc n)) ws)
      × ((given : List ℕ) × All IsU64 given
          × Returns (Extends dst dict (suc n)) (append_custom dst spare dict (pos (suc n)) given))
unfolding append_custom
append_custom-Ends dst spare dict n ws few can hs =
    let (given, hg, ends) = append_sized-Ends dst spare dict (suc n) few can in
    (
      append_custom-Ensures dst spare dict n ws few can hs,
      (
        given,
        hg,
        Ensures-Returns (Extends dst dict (suc n)) (append_sized dst spare dict (suc n) given)
            (append_custom-Ensures dst spare dict n given few can hg) ends,
      ),
    )
