-- ===== src/Ouigen/Rows.antt =====
-- The lists of the vendors, row by row.
use randomizer.Base.{
  ℕ, zero, suc, ◌<◌, ◌≡◌, refl, sym, ap, ◌∙◌, inl, inr, Option, none, some, List, [], ◌∷◌, ◌++◌,
  arith, ◌==◌, if◌then◌else◌, ==_iff, Bool-cases, length, get_or, set, length-set, set,
  Option-cases,
}
use mathlib.Core.List.{append-nil, append_assoc}
use randomizer.Ouigen.{
  accepted, Vendor, Row, Entry, Result, ok, failed, crashed, bind_ok, find_vendor, decode_oui,
  is_universal, entry_of, place, collect,
}

-- The entry that a row gives a vendor, if it does.
abbrev pub from_decoded : List Vendor → ℕ → Row → Result (List ℕ) → List Entry
from_decoded vendors i row (ok oui) =
    if is_universal oui then entry_of vendors i row oui ∷ [] else []
from_decoded vendors i row (failed e) = []
from_decoded vendors i row crashed = []

abbrev pub from_found : List Vendor → ℕ → Row → Option ℕ → List Entry
from_found vendors i row none = []
from_found vendors i row (some j) =
    if j == i then from_decoded vendors i row (decode_oui row.assignment) else []

abbrev pub from_row : List Vendor → ℕ → Row → List Entry
from_row vendors i row = from_found vendors i row (find_vendor vendors row.org)

-- What the rows give a vendor, in their order.
unfoldable pub from_rows : List Vendor → ℕ → List Row → List Entry
from_rows vendors i [] = []
from_rows vendors i (row ∷ rows) = from_row vendors i row ++ from_rows vendors i rows

get_or-set :
    (lists : List (List Entry)) (i j : ℕ) (x : List Entry)
    → i < length lists
    → get_or (set lists i x) j [] ≡ (if i == j then x else get_or lists j [])
get_or-set [] i j x lt = absurd (omega arith)
get_or-set (l ∷ lists) zero zero x lt = refl
get_or-set (l ∷ lists) zero (suc j) x lt = ground arith
get_or-set (l ∷ lists) (suc i) zero x lt = ground arith
get_or-set (l ∷ lists) (suc i) (suc j) x lt = ground (arith, get_or-set lists i j x)

find_vendor-lt :
    (vendors : List Vendor) (org : List ℕ) (i : ℕ)
    → find_vendor vendors org ≡ some i
    → i < length vendors
unfolding find_vendor
find_vendor-lt [] org i e = cc
find_vendor-lt (v ∷ vendors) org i e = elim (Bool-cases (accepted v.accepts org)) [
  | inl here ↦ let first : 0 ≡ i = cc (rw here at e) in omega arith
  | inr later ↦ elim (Option-cases (find_vendor vendors org)) [
    | inl nowhere ↦ cc (rw (later, nowhere) at e)
    | inr (j, at) ↦
        let next : suc j ≡ i = cc (rw (later, at) at e) in
        omega (arith, find_vendor-lt vendors org j at)
  ]
]

pub bind_ok-eq-ok {ℓ κ} :
    {A : Type ℓ} {B : Type κ} (m : Result A) (f : A → Result B) (b : B)
    → bind_ok m f ≡ ok b
    → (a : A) × (m ≡ ok a) × (f a ≡ ok b)
bind_ok-eq-ok (ok a) f b h = (a, refl, h)
bind_ok-eq-ok (failed p) f b h = cc
bind_ok-eq-ok crashed f b h = cc

-- A row adds its entry to the list of its vendor, and leaves the other lists alone.
place_lem :
    (vendors : List Vendor) (row : Row) (lists : List (List Entry)) (i j : ℕ) (oui : List ℕ)
    → j < length lists
    → find_vendor vendors row.org ≡ some j
    → decode_oui row.assignment ≡ ok oui
    → get_or (place vendors row j lists oui) i [] ≡ get_or lists i [] ++ from_row vendors i row
unfolding place
place_lem vendors row lists i j oui lt found decoded = elim (Bool-cases (is_universal oui)) [
  | inl yes_it_is ↦ elim (Bool-cases (j == i)) [
    | inl same ↦
        let e : j ≡ i = (==_iff j i).0 same in
        rw (found, same, decoded, yes_it_is, get_or-set lists j i _ lt, same) (rw e refl)
    | inr other ↦
        rw (found, other, yes_it_is, get_or-set lists j i _ lt, other)
          (sym (append-nil (get_or lists i [])))
  ]
  | inr no_it_is ↦ elim (Bool-cases (j == i)) [
    | inl same ↦ rw (found, same, decoded, no_it_is) (sym (append-nil (get_or lists i [])))
    | inr other ↦ rw (found, other, no_it_is) (sym (append-nil (get_or lists i [])))
  ]
]

length-place :
    (vendors : List Vendor) (row : Row) (lists : List (List Entry)) (j : ℕ) (oui : List ℕ)
    → length (place vendors row j lists oui) ≡ length lists
unfolding place
length-place vendors row lists j oui = elim (Bool-cases (is_universal oui)) [
  | inl e ↦ rw e (length-set lists j _)
  | inr e ↦ rw e refl
]

pub collect_lem :
    (vendors : List Vendor) (rows : List Row) (lists out : List (List Entry))
    → length lists ≡ length vendors
    → collect vendors rows lists ≡ ok out
    → (length out ≡ length vendors)
      × ((i : ℕ)
          → i < length vendors
          → get_or out i [] ≡ get_or lists i [] ++ from_rows vendors i rows)
unfolding collect from_rows
collect_lem vendors [] lists out size e =
    let same : lists ≡ out = cc in rw (← same) (size, λ i lt. sym (append-nil (get_or lists i [])))
collect_lem vendors (row ∷ rows) lists out size e =
    elim (Option-cases (find_vendor vendors row.org)) [
      | inl nowhere ↦
          let ih = collect_lem vendors rows lists out size (rw (nowhere, collect) at e) in
          rw nowhere ih
      | inr (j, found) ↦
          let (oui, decoded, rest) =
            bind_ok-eq-ok (decode_oui row.assignment)
              (λ oui. collect vendors rows (place vendors row j lists oui)) out
              (rw (found, collect) at e) in
          let placed = place vendors row j lists oui in
          let (total, each) =
            collect_lem vendors rows placed out (length-place vendors row lists j oui ∙ size)
              rest in
          let lt : j < length lists = omega (arith, find_vendor-lt vendors row.org j found) in
          (
            total,
            λ i hi.
                each i hi
                ∙ ap (λ t. t ++ from_rows vendors i rows)
                    (place_lem vendors row lists i j oui lt found decoded)
                ∙ append_assoc (get_or lists i []) (from_row vendors i row)
                    (from_rows vendors i rows),
          )
    ]
