-- ===== src/Ouigen/Selection.antt =====
-- `selectOUIs`: what is selected.
pub mod Lowest
pub mod Succeeds
use randomizer.Base.{
  ℕ, zero, suc, ◌%◌, ◌≤◌, ◌<◌, bit_and, ◌≡◌, refl, sym, ap, ◌∙◌, ◌↔◌, ◌⊎◌, inl, inr, Bool, true,
  ◌&&◌, Option, none, some, List, [], ◌∷◌, arith, leb, ◌==◌, le→leb, ==_iff, Bool-cases, length,
  get_or, take, All, Any, All-append, same_bytes, same_bytes_self, big_endian,
}
use randomizer.Ouigen.{
  Vendor, Row, Entry, Result, ok, failed, crashed, find_vendor, decode_oui, is_universal, name_at,
}
use randomizer.Base.Bits.{bit_and_mask}
use randomizer.Ouigen.First.{IsFirst, find_vendor-IsFirst, find_vendor-some}
use randomizer.Ouigen.Decode.{all_hex, octets, decode_oui-ok, decode_oui-eq-ok}
use randomizer.Ouigen.Gather.{count_of-append}
use randomizer.Ouigen.Sorting.{key, IsSorted, count_of}
use randomizer.Ouigen.Rows.{from_decoded, from_found, from_row, from_rows}

-- The entry stands for a row of vendor i: the row's organization matches the vendor's pattern and none
-- before it, its assignment is the six hexadecimal digits of the OUI, and the OUI is neither a
-- multicast nor a locally administered one.
abbrev pub StandsFor : List Vendor → ℕ → Entry → Row → Type 0
StandsFor vendors i e row =
    IsFirst vendors row.org i
    × (e.vendor ≡ name_at vendors i)
    × (e.org ≡ row.org)
    × (length row.assignment ≡ 6)
    × (all_hex row.assignment ≡ true)
    × (e.oui ≡ octets row.assignment)
    × (get_or e.oui 0 0 % 4 ≡ 0)

abbrev pub IsOffered : List Vendor → List Row → ℕ → Entry → Type 0
IsOffered vendors rows i e = Any (StandsFor vendors i e) rows

is_universal_iff : (oui : List ℕ) → (is_universal oui ≡ true) ↔ (get_or oui 0 0 % 4 ≡ 0)
unfolding is_universal
is_universal_iff oui =
    let low : bit_and (get_or oui 0 0) 3 ≡ get_or oui 0 0 % 4 = bit_and_mask 2 (get_or oui 0 0) in
    (λ h. sym low ∙ (==_iff _ _).0 h, λ h. (==_iff _ _).1 (low ∙ h))

pub All-map {ℓ} :
    {A : Type ℓ} (P Q : A → Type 0) (xs : List A) → ((x : A) → P x → Q x) → All P xs → All Q xs
All-map P Q [] f h = tt
All-map P Q (x ∷ xs) f h = (f x h.0, All-map P Q xs f h.1)

from_decoded-StandsFor :
    (vendors : List Vendor) (i : ℕ) (row : Row) (r : Result (List ℕ))
    → IsFirst vendors row.org i
    → decode_oui row.assignment ≡ r
    → All (λ e. StandsFor vendors i e row) (from_decoded vendors i row r)
from_decoded-StandsFor vendors i row (ok oui) found decoded = elim (Bool-cases (is_universal oui)) [
  | inl fine ↦
      let (six, hex, same) = decode_oui-eq-ok row.assignment oui decoded in
      rw fine ((found, refl, refl, six, hex, same, (is_universal_iff oui).0 fine), tt)
  | inr bad ↦ rw bad tt
]
from_decoded-StandsFor vendors i row (failed p) found decoded = tt
from_decoded-StandsFor vendors i row crashed found decoded = tt

from_found-StandsFor :
    (vendors : List Vendor) (i : ℕ) (row : Row) (found : Option ℕ)
    → find_vendor vendors row.org ≡ found
    → All (λ e. StandsFor vendors i e row) (from_found vendors i row found)
from_found-StandsFor vendors i row none e = tt
from_found-StandsFor vendors i row (some j) e = elim (Bool-cases (j == i)) [
  | inl same ↦ rw same (
      from_decoded-StandsFor vendors i row (decode_oui row.assignment)
        (find_vendor-IsFirst vendors row.org i (e ∙ ap some ((==_iff j i).0 same))) refl)
  | inr other ↦ rw other tt
]

pub from_rows-IsOffered :
    (vendors : List Vendor) (i : ℕ) (rows : List Row)
    → All (IsOffered vendors rows i) (from_rows vendors i rows)
unfolding from_rows
from_rows-IsOffered vendors i [] = tt
from_rows-IsOffered vendors i (row ∷ rows) =
    All-append _ (from_row vendors i row) (from_rows vendors i rows)
      (All-map _ _ (from_row vendors i row) (λ e h. inl h)
        (from_found-StandsFor vendors i row (find_vendor vendors row.org) refl))
      (All-map _ _ (from_rows vendors i rows) (λ e h. inr h) (from_rows-IsOffered vendors i rows))

pub IsOffered-vendor :
    (vendors : List Vendor) (rows : List Row) (i : ℕ) (e : Entry)
    → IsOffered vendors rows i e
    → e.vendor ≡ name_at vendors i
IsOffered-vendor vendors [] i e h = absurd h
IsOffered-vendor vendors (row ∷ rows) i e (inl h) = h.1
IsOffered-vendor vendors (row ∷ rows) i e (inr h) = IsOffered-vendor vendors rows i e h

-- The entries of a vendor up to an OUI, and those of that OUI.
abbrev pub up_to : List ℕ → Entry → Entry → Bool
up_to name c e = same_bytes e.vendor name && leb (key e) (key c)

abbrev pub level : List ℕ → Entry → Entry → Bool
level name c e = same_bytes e.vendor name && (key e == key c)

count_of-length : (test : Entry → Bool) (es : List Entry) → count_of test es ≤ length es
count_of-length test [] = omega arith
count_of-length test (e ∷ es) = ground (arith, count_of-length test es)

above-level :
    (name : List ℕ) (c : Entry) (k : ℕ) (es : List Entry)
    → All (λ f. k ≤ key f) es
    → 1 ≤ count_of (level name c) es
    → k ≤ key c
above-level name c k [] h some_entry = absurd (omega arith)
above-level name c k (e ∷ es) h some_entry = elim (Bool-cases (level name c e)) [
  | inl here ↦ ground arith
  | inr later ↦ above-level name c k es h.1 (omega (arith, rw later at some_entry))
]

-- Of a list in order that holds an OUI, `n` in front are up to that OUI, or one of them is it.
pub take-up_to :
    (name : List ℕ) (c : Entry) (n : ℕ) (es : List Entry)
    → IsSorted es
    → All (λ e. e.vendor ≡ name) es
    → 1 ≤ count_of (level name c) es
    → (n ≤ count_of (up_to name c) (take n es)) ⊎ (1 ≤ count_of (level name c) (take n es))
take-up_to name c zero es sorted named some_entry = inl (omega arith)
take-up_to name c (suc n) [] sorted named some_entry = absurd (omega arith)
take-up_to name c (suc n) (e ∷ es) sorted named some_entry = elim (Bool-cases (level name c e)) [
  | inl here ↦ inr (rw here (omega arith))
  | inr later ↦
      let behind : 1 ≤ count_of (level name c) es = omega (arith, rw later at some_entry) in
      let le = above-level name c (key e) es sorted.0 behind in
      let own : same_bytes e.vendor name ≡ true = rw named.0 (same_bytes_self name) in
      elim (take-up_to name c n es sorted.1 named.1 behind) [
        | inl many ↦ inl (rw (own, le→leb (key e) (key c) le) (omega arith))
        | inr one ↦ inr (rw later (omega arith))
      ]
]

-- The rows give the vendor what they offer it.
pub from_rows-level :
    (vendors : List Vendor) (rows : List Row) (i : ℕ) (c : Entry)
    → IsOffered vendors rows i c
    → 1 ≤ count_of (level (name_at vendors i) c) (from_rows vendors i rows)
unfolding from_rows
from_rows-level vendors [] i c h = absurd h
from_rows-level vendors (row ∷ rows) i c (inl (first, named, org, six, hex, oui, low)) =
    let found = find_vendor-some vendors row.org i first in
    let decoded = decode_oui-ok row.assignment six hex in
    let fine = (is_universal_iff (octets row.assignment)).1 (rw oui at low) in
    let self = (==_iff i i).1 refl in
    let own = same_bytes_self (name_at vendors i) in
    let same : (big_endian (octets row.assignment) == key c) ≡ true =
      (==_iff _ _).1 (ap big_endian (sym oui)) in
    rw (found, self, decoded, fine, own, same) (omega arith)
from_rows-level vendors (row ∷ rows) i c (inr h) =
    rw
      (count_of-append (level (name_at vendors i) c) (from_row vendors i row)
        (from_rows vendors i rows))
      (omega (arith, from_rows-level vendors rows i c h))

pub from_rows-some :
    (vendors : List Vendor) (rows : List Row) (i : ℕ) (c : Entry)
    → IsOffered vendors rows i c
    → 0 < length (from_rows vendors i rows)
from_rows-some vendors rows i c h =
    let level_c = level (name_at vendors i) c in
    omega (
      arith,
      from_rows-level vendors rows i c h,
      count_of-length level_c (from_rows vendors i rows),
    )
