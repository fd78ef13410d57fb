-- ===== src/Ouigen/Sorting.antt =====
-- `sort.Slice` by `bytes.Compare` of the OUIs, as what it promises: the same entries in ascending
-- order. The order of entries with one OUI is left open.
use randomizer.Base.{
  ℕ, ◌+◌, ◌≤◌, ◌≡◌, refl, inl, inr, Bool, List, [], ◌∷◌, arith, leb, if◌then◌else◌, leb→le,
  Bool-cases, All, big_endian,
}
use randomizer.Ouigen.{Entry}

-- Bytes of one length compare as the numbers that they stand for.
abbrev pub key : Entry → ℕ
key e = big_endian e.oui

abbrev pub IsSorted : List Entry → Type 0
IsSorted [] = Unit {0}
IsSorted (e ∷ es) = All (λ f. key e ≤ key f) es × IsSorted es

abbrev pub count_of : (Entry → Bool) → List Entry → ℕ
count_of test [] = 0
count_of test (e ∷ es) = (if test e then 1 else 0) + count_of test es

pub record SortBy : Type 1 where
  pub sort : List Entry → List Entry
  pub ascending : (es : List Entry) → IsSorted (sort es)
  pub same_count :
      (es : List Entry) (test : Entry → Bool) → count_of test (sort es) ≡ count_of test es
  pub same_entries : (P : Entry → Type 0) (es : List Entry) → All P es → All P (sort es)

-- Sorting by insertion keeps the promise.
unfoldable pub insert_entry : Entry → List Entry → List Entry
insert_entry e [] = e ∷ []
insert_entry e (f ∷ fs) = if leb (key e) (key f) then e ∷ f ∷ fs else f ∷ insert_entry e fs

unfoldable pub insertion_sort : List Entry → List Entry
insertion_sort [] = []
insertion_sort (e ∷ es) = insert_entry e (insertion_sort es)

All-insert_entry :
    (P : Entry → Type 0) (e : Entry) (es : List Entry) → P e → All P es → All P (insert_entry e es)
unfolding insert_entry
All-insert_entry P e [] p h = (p, h)
All-insert_entry P e (f ∷ fs) p h = elim (Bool-cases (leb (key e) (key f))) [
  | inl le ↦ rw le (p, h)
  | inr gt ↦ rw gt (h.0, All-insert_entry P e fs p h.1)
]

All-above : (m k : ℕ) (es : List Entry) → m ≤ k → All (λ f. k ≤ key f) es → All (λ f. m ≤ key f) es
All-above m k [] le h = tt
All-above m k (e ∷ es) le h = (omega arith, All-above m k es le h.1)

insert_entry-IsSorted : (e : Entry) (es : List Entry) → IsSorted es → IsSorted (insert_entry e es)
unfolding insert_entry
insert_entry-IsSorted e [] h = (tt, tt)
insert_entry-IsSorted e (f ∷ fs) h = elim (Bool-cases (leb (key e) (key f))) [
  | inl le ↦ rw le ((leb→le _ _ le, All-above (key e) (key f) fs (leb→le _ _ le) h.0), h)
  | inr gt ↦ rw gt (
    All-insert_entry (λ g. key f ≤ key g) e fs (ground arith) h.0,
    insert_entry-IsSorted e fs h.1,
  )
]

count_of-insert_entry :
    (test : Entry → Bool) (e : Entry) (es : List Entry)
    → count_of test (insert_entry e es) ≡ (if test e then 1 else 0) + count_of test es
unfolding insert_entry
count_of-insert_entry test e [] = refl
count_of-insert_entry test e (f ∷ fs) = elim (Bool-cases (leb (key e) (key f))) [
  | inl le ↦ rw le refl
  | inr gt ↦ rw gt (omega (arith, count_of-insert_entry test e fs))
]

pub insertion_sort-IsSorted : (es : List Entry) → IsSorted (insertion_sort es)
unfolding insertion_sort
insertion_sort-IsSorted [] = tt
insertion_sort-IsSorted (e ∷ es) =
    insert_entry-IsSorted e (insertion_sort es) (insertion_sort-IsSorted es)

pub count_of-insertion_sort :
    (es : List Entry) (test : Entry → Bool) → count_of test (insertion_sort es) ≡ count_of test es
unfolding insertion_sort
count_of-insertion_sort [] test = refl
count_of-insertion_sort (e ∷ es) test =
    omega (arith, count_of-insert_entry test e (insertion_sort es), count_of-insertion_sort es test)

pub All-insertion_sort :
    (P : Entry → Type 0) (es : List Entry) → All P es → All P (insertion_sort es)
unfolding insertion_sort
All-insertion_sort P [] h = h
All-insertion_sort P (e ∷ es) h =
    All-insert_entry P e (insertion_sort es) h.0 (All-insertion_sort P es h.1)

abbrev pub by_insertion : SortBy
by_insertion = record {
  sort = insertion_sort;
  ascending = insertion_sort-IsSorted;
  same_count = count_of-insertion_sort;
  same_entries = All-insertion_sort;
}
