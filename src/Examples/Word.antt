-- ===== src/Examples/Word.antt =====
-- word.go on concrete words.
use randomizer.Base.{
  ℕ, zero, suc, ◌-◌, ◌/◌, ◌%◌, ◌^◌, ◌≤◌, ◌<◌, ◌≡◌, refl, ◌⊎◌, inl, inr, true, some, List, [], ◌∷◌,
  arith, leb, leb→le, holds_below, holds_below_each, length, All, IsU64, Returns, codes, Ensures,
}
use randomizer.Base.Int.{pos}
use randomizer.Number.{mul_lo, threshold, bounded_from}
use randomizer.Number.Uniform.{count_below}
use randomizer.Word.{
  octal, alphabet_data, grow_batch, shrink_batch, new_batch_spec, draw_batch, fill_batches,
  fill_batched_no_repeat, skip_past,
}
use randomizer.Word.NoRepeat.{IsAt, Continues, IsString}
use randomizer.Word.Spec.{IsPower, new_batch_spec_lem}
use randomizer.Word.Custom.{append_custom, bytes, append_word}
use randomizer.Word.Custom.Result.{Extends}
use randomizer.Word.Custom.Outcome.{Constant, append_custom_rejects}
use randomizer.Word.Custom.Ends.{append_custom-Ends}
use randomizer.Word.Alphabets.{Serviceable}
use randomizer.Word.Alphabets.Table.{word-Returns, alphabet_data-RepeatFree}
use randomizer.Word.Uniform.Count.{writes, count-writes}

abbrev some_word : ℕ
some_word = 0x9e37_79b9_7f4a_7c15

abbrev other_word : ℕ
other_word = 0xdead_beef_cafe_babe

octal_string : bytes octal (pos 3) (some_word ∷ other_word ∷ []) ≡ some (codes "470", [])
unfolding bytes fill_batched_no_repeat fill_batches draw_batch skip_past bounded_from new_batch_spec
    grow_batch shrink_batch threshold alphabet_data
octal_string = refl

-- The low half of the word 0 is rejected, and the state from before the batch is restored.
redrawn_string : bytes octal (pos 3) (some_word ∷ 0 ∷ other_word ∷ []) ≡ some (codes "470", [])
unfolding bytes fill_batched_no_repeat fill_batches draw_batch skip_past bounded_from new_batch_spec
    grow_batch shrink_batch threshold alphabet_data
redrawn_string = refl

octal_batch : (new_batch_spec (length (alphabet_data octal) - 1)).k ≡ 21
unfolding new_batch_spec grow_batch shrink_batch threshold alphabet_data
octal_batch = refl

usable_each :
    (w : ℕ)
    → holds_below (λ j. leb (2 ^ 64 % 7 ^ j) (mul_lo w (7 ^ j))) 22 ≡ true
    → (j : ℕ) → 1 ≤ j
    → j ≤ 21
    → 2 ^ 64 % 7 ^ j ≤ mul_lo w (7 ^ j)
usable_each w run j from to = leb→le _ _ (holds_below_each _ 22 run j (omega arith))

serviceable :
    (w : ℕ)
    → holds_below (λ j. leb (2 ^ 64 % 7 ^ j) (mul_lo w (7 ^ j))) 22 ≡ true
    → Serviceable (length (alphabet_data octal)) w
unfolding alphabet_data
serviceable w run = (omega arith, rw octal_batch (usable_each w run))

some_word-Serviceable : Serviceable (length (alphabet_data octal)) some_word
unfolding holds_below
some_word-Serviceable = serviceable some_word refl

other_word-Serviceable : Serviceable (length (alphabet_data octal)) other_word
unfolding holds_below
other_word-Serviceable = serviceable other_word refl

word-Returns_example :
    Returns
      (IsString (alphabet_data octal) 3)
      (bytes octal (pos 3) (some_word ∷ 0 ∷ other_word ∷ []))
    × Returns
        (Extends (7 ∷ []) (alphabet_data octal) 3)
        (append_word (7 ∷ []) [] octal (pos 3) (some_word ∷ 0 ∷ other_word ∷ []))
word-Returns_example =
    word-Returns (7 ∷ []) [] octal 2 1 (some_word ∷ 0 ∷ other_word ∷ [])
      (omega (arith, octal_batch)) (omega arith)
      (inl (some_word-Serviceable, inr (inl (other_word-Serviceable, tt))))

new_batch_spec_lem_example :
    IsPower 7 (new_batch_spec 7)
    × (1 ≤ (new_batch_spec 7).k)
    × (((new_batch_spec 7).k ≡ 1) ⊎ (2 ^ 64 % (new_batch_spec 7).prod ≤ 2 ^ 60))
    × ((22 ≤ (new_batch_spec 7).k) ⊎ (2 ^ 64 ≤ 7 ^ 22) ⊎ (2 ^ 60 < 2 ^ 64 % 7 ^ 22))
new_batch_spec_lem_example = new_batch_spec_lem 7 22 (omega arith) (omega arith)

-- The comment of `newBatchSpec` would have a batch of 64 positions for two candidates.
two_candidates : (new_batch_spec 2).k ≡ 63
unfolding new_batch_spec grow_batch shrink_batch threshold
two_candidates = refl

append_custom-Ends_example :
    Ensures
      (Extends (7 ∷ []) (codes "aab") 2)
      (append_custom (7 ∷ []) [] (codes "aab") (pos 2) (some_word ∷ other_word ∷ []))
    × ((given : List ℕ) × All IsU64 given
        × Returns
            (Extends (7 ∷ []) (codes "aab") 2)
            (append_custom (7 ∷ []) [] (codes "aab") (pos 2) given))
append_custom-Ends_example =
    append_custom-Ends (7 ∷ []) [] (codes "aab") 1 (some_word ∷ other_word ∷ []) (omega arith)
      (omega arith, inr (0, 2, omega arith, omega arith, λ q. absurd (omega arith))) (omega arith)

aa-Constant : Constant (codes "aa")
aa-Constant zero zero hi hj = refl
aa-Constant zero (suc zero) hi hj = refl
aa-Constant (suc zero) zero hi hj = refl
aa-Constant (suc zero) (suc zero) hi hj = refl
aa-Constant (suc (suc i)) j hi hj = absurd (omega arith)
aa-Constant zero (suc (suc j)) hi hj = absurd (omega arith)
aa-Constant (suc zero) (suc (suc j)) hi hj = absurd (omega arith)

append_custom_rejects_example :
    append_custom (7 ∷ []) [] (codes "aa") (pos 2) (some_word ∷ []) ≡ some (7 ∷ [], some_word ∷ [])
append_custom_rejects_example =
    append_custom_rejects (7 ∷ []) [] (codes "aa") (pos 2) (some_word ∷ [])
      (inr (inr (omega arith, aa-Constant)))

held_four : IsAt (alphabet_data octal) b'4' 4
unfolding alphabet_data
held_four = (omega arith, refl)

next_two : Continues (alphabet_data octal) b'4' 2 (codes "70")
unfolding alphabet_data
next_two = (
  refl,
  ((7, omega arith, refl), ((0, omega arith, refl), tt)),
  (λ q. absurd (omega arith), (λ q. absurd (omega arith), tt)),
)

count-writes_example :
    count_below (2 ^ 64) (writes (alphabet_data octal) b'4' 4 (codes "70")) ≡ 2 ^ 64 / 7 ^ 2
unfolding alphabet_data
count-writes_example =
    count-writes (alphabet_data octal) b'4' 4 (codes "70") (alphabet_data-RepeatFree octal).0
      (alphabet_data-RepeatFree octal).1 (alphabet_data-RepeatFree octal).2 held_four (omega arith)
      (omega (arith, octal_batch)) next_two
