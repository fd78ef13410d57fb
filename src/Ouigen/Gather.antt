-- ===== src/Ouigen/Gather.antt =====
-- What the loop over the vendors keeps of their lists.
use randomizer.Base.{
  ℕ, zero, suc, ◌+◌, ◌≤◌, ◌<◌, ◌≡◌, refl, ◌≢◌, Bool, false, List, [], ◌∷◌, ◌++◌, arith, length,
  get_or, take, All-take, All, All-append,
}
use randomizer.Base.Int.{ℤ, pos}
use randomizer.Ouigen.{Vendor, Entry, ok, bind_ok, first_of, gather}
use randomizer.Ouigen.Sorting.{count_of, SortBy}
use randomizer.Ouigen.Rows.{bind_ok-eq-ok}

pub count_of-append :
    (test : Entry → Bool) (xs ys : List Entry)
    → count_of test (xs ++ ys) ≡ count_of test xs + count_of test ys
count_of-append test [] ys = omega arith
count_of-append test (x ∷ xs) ys = omega (arith, count_of-append test xs ys)

count_of-take : (test : Entry → Bool) (n : ℕ) (es : List Entry) → count_of test (take n es) ≤ n
count_of-take test zero es = omega arith
count_of-take test (suc n) [] = omega arith
count_of-take test (suc n) (e ∷ es) = ground (arith, count_of-take test n es)

count_of-none :
    (test : Entry → Bool) (es : List Entry) → All (λ e. test e ≡ false) es → count_of test es ≡ 0
count_of-none test [] h = refl
count_of-none test (e ∷ es) h = rw h.0 (omega (arith, count_of-none test es h.1))

-- Every vendor has a list that is not empty.
pub gather-some :
    (by : SortBy) (per_vendor : ℤ) (vendors : List Vendor) (lists : List (List Entry))
    (out : List Entry) (i : ℕ)
    → gather by.sort per_vendor vendors lists ≡ ok out
    → i < length vendors
    → 0 < length (get_or lists i [])
unfolding gather
gather-some by per_vendor [] lists out i e lt = absurd (omega arith)
gather-some by per_vendor (v ∷ vendors) [] out i e lt = cc
gather-some by per_vendor (v ∷ vendors) ([] ∷ lists) out i e lt = cc
gather-some by per_vendor (v ∷ vendors) ((x ∷ xs) ∷ lists) out zero e lt = omega arith
gather-some by per_vendor (v ∷ vendors) ((x ∷ xs) ∷ lists) out (suc i) e lt =
    let (kept, cut, behind) =
      bind_ok-eq-ok (first_of per_vendor (by.sort (x ∷ xs)))
        (λ kept. bind_ok (gather by.sort per_vendor vendors lists) (λ rest. ok (kept ++ rest))) out
        e in
    let (rest, gathered, both) =
      bind_ok-eq-ok (gather by.sort per_vendor vendors lists) (λ rest. ok (kept ++ rest)) out
        behind in
    gather-some by per_vendor vendors lists rest i gathered (omega arith)

module _ (by : SortBy) (n : ℕ) where
  -- The lists are not empty, and what they have in common holds of what is kept.
  pub gather-All :
      (P : Entry → Type 0) (vendors : List Vendor) (lists : List (List Entry)) (out : List Entry)
      → gather by.sort (pos n) vendors lists ≡ ok out
      → ((i : ℕ) → i < length vendors → All P (get_or lists i []))
      → All P out
  unfolding gather
  gather-All P [] lists out e h = let none_left : [] ≡ out = cc in rw (← none_left) tt
  gather-All P (v ∷ vendors) [] out e h = cc
  gather-All P (v ∷ vendors) ([] ∷ lists) out e h = cc
  gather-All P (v ∷ vendors) ((x ∷ xs) ∷ lists) out e h =
      let (rest, gathered, both) =
        bind_ok-eq-ok (gather by.sort (pos n) vendors lists)
          (λ rest. ok (take n (by.sort (x ∷ xs)) ++ rest)) out e in
      let sum : take n (by.sort (x ∷ xs)) ++ rest ≡ out = cc in
      rw (← sum) (
        All-append P (take n (by.sort (x ∷ xs))) rest
          (All-take P n (by.sort (x ∷ xs)) (by.same_entries P (x ∷ xs) (h 0 (omega arith))))
          (gather-All P vendors lists rest gathered (λ i lt. h (suc i) (omega arith))))

  -- The first `n` of every list, in order, are kept.
  pub gather-count_of :
      (test : Entry → Bool) (vendors : List Vendor) (lists : List (List Entry)) (out : List Entry)
      (i : ℕ)
      → gather by.sort (pos n) vendors lists ≡ ok out
      → i < length vendors
      → count_of test (take n (by.sort (get_or lists i []))) ≤ count_of test out
  unfolding gather
  gather-count_of test [] lists out i e lt = absurd (omega arith)
  gather-count_of test (v ∷ vendors) [] out i e lt = cc
  gather-count_of test (v ∷ vendors) ([] ∷ lists) out i e lt = cc
  gather-count_of test (v ∷ vendors) ((x ∷ xs) ∷ lists) out zero e lt =
      let kept = take n (by.sort (x ∷ xs)) in
      let (rest, gathered, both) =
        bind_ok-eq-ok (gather by.sort (pos n) vendors lists) (λ rest. ok (kept ++ rest)) out e in
      let sum : kept ++ rest ≡ out = cc in
      rw (← sum) (omega (arith, count_of-append test kept rest))
  gather-count_of test (v ∷ vendors) ((x ∷ xs) ∷ lists) out (suc i) e lt =
      let kept = take n (by.sort (x ∷ xs)) in
      let (rest, gathered, both) =
        bind_ok-eq-ok (gather by.sort (pos n) vendors lists) (λ rest. ok (kept ++ rest)) out e in
      let sum : kept ++ rest ≡ out = cc in
      let le = gather-count_of test vendors lists rest i gathered (omega arith) in
      rw (← sum) (omega (arith, count_of-append test kept rest, le))

  -- Of the entries that only one vendor has, at most `n` are kept.
  pub gather-few :
      (test : Entry → Bool) (vendors : List Vendor) (lists : List (List Entry)) (out : List Entry)
      (i : ℕ)
      → gather by.sort (pos n) vendors lists ≡ ok out
      → ((j : ℕ) → j < length vendors → j ≢ i → All (λ e. test e ≡ false) (get_or lists j []))
      → count_of test out ≤ n
  unfolding gather
  gather-few test [] lists out i e h =
      let none_left : [] ≡ out = cc in rw (← none_left) (omega arith)
  gather-few test (v ∷ vendors) [] out i e h = cc
  gather-few test (v ∷ vendors) ([] ∷ lists) out i e h = cc
  gather-few test (v ∷ vendors) ((x ∷ xs) ∷ lists) out zero e h =
      let kept = take n (by.sort (x ∷ xs)) in
      let (rest, gathered, both) =
        bind_ok-eq-ok (gather by.sort (pos n) vendors lists) (λ rest. ok (kept ++ rest)) out e in
      let sum : kept ++ rest ≡ out = cc in
      let others =
        gather-All (λ e. test e ≡ false) vendors lists rest gathered
          (λ j lt. h (suc j) (omega arith) (λ e. omega arith)) in
      rw (← sum) (
        omega (
          arith,
          count_of-append test kept rest,
          count_of-take test n (by.sort (x ∷ xs)),
          count_of-none test rest others,
        ))
  gather-few test (v ∷ vendors) ((x ∷ xs) ∷ lists) out (suc i) e h =
      let kept = take n (by.sort (x ∷ xs)) in
      let (rest, gathered, both) =
        bind_ok-eq-ok (gather by.sort (pos n) vendors lists) (λ rest. ok (kept ++ rest)) out e in
      let sum : kept ++ rest ≡ out = cc in
      let first =
        All-take (λ e. test e ≡ false) n (by.sort (x ∷ xs))
          (by.same_entries (λ e. test e ≡ false) (x ∷ xs) (h 0 (omega arith) (λ e. omega arith))) in
      let few =
        gather-few test vendors lists rest i gathered
          (λ j lt other. h (suc j) (omega arith) (λ e. other (omega arith))) in
      rw (← sum) (omega (arith, count_of-append test kept rest, count_of-none test kept first, few))
