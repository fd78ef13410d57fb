-- ===== src/Ouigen/Selection/Succeeds.antt =====
-- The registries on which `selectOUIs` succeeds.
use randomizer.Base.{
  ℕ, suc, ◌<◌, ◌≡◌, refl, ◌⊎◌, inl, inr, true, false, List, [], ◌∷◌, ◌++◌, arith, length, get_or,
  take, replicate, length-replicate, All, Option-cases,
}
use randomizer.Base.Int.{pos}
use randomizer.Ouigen.{
  accepted, Vendor, Row, Entry, ok, find_vendor, place, collect, gather, select_ouis,
}
use randomizer.Ouigen.Decode.{decode_oui-ok, all_hex, octets}
use randomizer.Ouigen.First.{find_vendor-none}
use randomizer.Ouigen.Selection.{IsOffered, from_rows-some}
use randomizer.Ouigen.Sorting.{SortBy}
use randomizer.Ouigen.Rows.{collect_lem}
use randomizer.Ouigen.Selection.Lowest.{get_or-empty}

-- No vendor matches the row, or its assignment has six hexadecimal digits.
abbrev pub IsSound : List Vendor → Row → Type 0
IsSound vendors row =
    All (λ v. accepted v.accepts row.org ≡ false) vendors
    ⊎ (length row.assignment ≡ 6) × (all_hex row.assignment ≡ true)

collect-ok :
    (vendors : List Vendor) (rows : List Row) (lists : List (List Entry))
    → All (IsSound vendors) rows
    → (out : List (List Entry)) × (collect vendors rows lists ≡ ok out)
unfolding collect
collect-ok vendors [] lists h = (lists, refl)
collect-ok vendors (row ∷ rows) lists (inl nowhere, h) =
    let (out, e) = collect-ok vendors rows lists h in
    (out, rw (find_vendor-none vendors row.org nowhere, collect) e)
collect-ok vendors (row ∷ rows) lists (inr (six, hex), h) =
    elim (Option-cases (find_vendor vendors row.org)) [
      | inl nowhere ↦
          let (out, e) = collect-ok vendors rows lists h in (out, rw (nowhere, collect) e)
      | inr (i, found) ↦
          let (out, e) =
            collect-ok vendors rows (place vendors row i lists (octets row.assignment)) h in
          (out, rw (found, collect) (rw (decode_oui-ok row.assignment six hex) e))
    ]

gather-ok :
    (by : SortBy) (n : ℕ) (vendors : List Vendor) (lists : List (List Entry))
    → ((i : ℕ) → i < length vendors → 0 < length (get_or lists i []))
    → (out : List Entry) × (gather by.sort (pos n) vendors lists ≡ ok out)
unfolding gather
gather-ok by n [] lists h = ([], refl)
gather-ok by n (v ∷ vendors) [] h = absurd (let p = h 0 (omega arith) in omega arith)
gather-ok by n (v ∷ vendors) ([] ∷ lists) h = absurd (let p = h 0 (omega arith) in omega arith)
gather-ok by n (v ∷ vendors) ((x ∷ xs) ∷ lists) h =
    let (rest, e) = gather-ok by n vendors lists (λ i lt. h (suc i) (omega arith)) in
    (take n (by.sort (x ∷ xs)) ++ rest, rw e refl)

-- selectOUIs succeeds where the assignment of every row that a vendor matches has six hexadecimal
-- digits, the rows offer every vendor an entry, which has to be universal and unicast, and the bound for each
-- vendor is not negative.
pub select_ouis_succeeds :
    (by : SortBy) (rows : List Row) (vendors : List Vendor) (n : ℕ)
    → All (IsSound vendors) rows
    → ((i : ℕ) → i < length vendors → (e : Entry) × IsOffered vendors rows i e)
    → (out : List Entry) × (select_ouis by.sort rows vendors (pos n) ≡ ok out)
unfolding select_ouis
select_ouis_succeeds by rows vendors n sound served =
    let empty = replicate (length vendors) [] in
    let (lists, collected) = collect-ok vendors rows empty sound in
    let (_, each) =
      collect_lem vendors rows empty lists (length-replicate (length vendors) []) collected in
    let (entries, gathered) = gather-ok by n vendors lists (λ i lt.
      let (c, offered) = served i lt in
      rw (each i lt, get_or-empty (length vendors) i) (from_rows-some vendors rows i c offered)) in
    (by.sort entries, rw (collected, gathered) refl)
