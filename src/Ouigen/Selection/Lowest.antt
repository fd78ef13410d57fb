-- ===== src/Ouigen/Selection/Lowest.antt =====
-- `selectOUIs` where it succeeds, and where it does not.
use randomizer.Base.{
  ℕ, zero, suc, ◌≤◌, ◌<◌, ◌≡◌, refl, sym, ap, ◌∙◌, ◌≢◌, ◌⊎◌, inl, inr, false, List, [], ◌∷◌, ◌++◌,
  arith, Bool-cases, length, get_or, replicate, length-replicate, All, same_bytes, same_bytes-eq,
}
use randomizer.Base.Int.{ℤ, pos}
use randomizer.Ouigen.{Vendor, Row, Entry, ok, bind_ok, name_at, collect, gather, select_ouis}
use randomizer.Ouigen.Sorting.{IsSorted, count_of, SortBy}
use randomizer.Ouigen.Rows.{from_rows, bind_ok-eq-ok, collect_lem}
use randomizer.Ouigen.Gather.{gather-All, gather-some, gather-few, gather-count_of}
use randomizer.Ouigen.Selection.{
  IsOffered, All-map, from_rows-IsOffered, IsOffered-vendor, from_rows-level, up_to, level,
  take-up_to,
}

pub get_or-empty : (k i : ℕ) → get_or {A = List Entry} (replicate k []) i [] ≡ []
get_or-empty zero i = refl
get_or-empty (suc k) zero = refl
get_or-empty (suc k) (suc i) = get_or-empty k i

first-All : (P : Entry → Type 0) (es : List Entry) → 0 < length es → All P es → (e : Entry) × P e
first-All P [] some_entry h = absurd (omega arith)
first-All P (e ∷ es) some_entry h = (e, h.0)

not_named :
    (vendors : List Vendor) (rows : List Row) (i j : ℕ)
    → name_at vendors j ≢ name_at vendors i
    → All (λ e. same_bytes e.vendor (name_at vendors i) ≡ false) (from_rows vendors j rows)
not_named vendors rows i j other =
    All-map _ _ (from_rows vendors j rows)
      (λ e h. elim (Bool-cases (same_bytes e.vendor (name_at vendors i))) [
        | inl same ↦ absurd (
            other (
              sym (IsOffered-vendor vendors rows j e h)
              ∙ same_bytes-eq e.vendor (name_at vendors i) same))
        | inr apart ↦ apart
      ])
      (from_rows-IsOffered vendors j rows)

-- An entry that the rows offer is kept, or as many as there may be that are not above it.
lowest :
    (by : SortBy) (rows : List Row) (vendors : List Vendor) (n i : ℕ) (c : Entry)
    (entries : List Entry) (lists : List (List Entry))
    → gather by.sort (pos n) vendors lists ≡ ok entries
    → get_or lists i [] ≡ from_rows vendors i rows
    → i < length vendors
    → IsOffered vendors rows i c
    → (n ≤ count_of (up_to (name_at vendors i) c) (by.sort entries))
      ⊎ (1 ≤ count_of (level (name_at vendors i) c) (by.sort entries))
lowest by rows vendors n i c entries lists gathered mine_eq lt offered =
    let name = name_at vendors i in
    let mine = from_rows vendors i rows in
    let few =
      rw mine_eq at (gather-count_of by n (up_to name c) vendors lists entries i gathered lt) in
    let one =
      rw mine_eq at (gather-count_of by n (level name c) vendors lists entries i gathered lt) in
    let there : 1 ≤ count_of (level name c) (by.sort mine) =
      rw (by.same_count mine (level name c)) (from_rows-level vendors rows i c offered) in
    let named =
      by.same_entries (λ e. e.vendor ≡ name) mine
        (All-map _ _ mine (IsOffered-vendor vendors rows i) (from_rows-IsOffered vendors i rows)) in
    elim (take-up_to name c n (by.sort mine) (by.ascending mine) named there) [
      | inl many ↦ inl (omega (arith, by.same_count entries (up_to name c), few))
      | inr found ↦ inr (omega (arith, by.same_count entries (level name c), one))
    ]

-- The lists behind the loop over the rows, and what is gathered from them.
module _ (by : SortBy) (rows : List Row) (vendors : List Vendor) (per_vendor : ℤ) (out : List Entry)
    (done : select_ouis by.sort rows vendors per_vendor ≡ ok out) where
  record Selected : Type 0 where
    lists : List (List Entry)
    entries : List Entry
    each : (i : ℕ) → i < length vendors → get_or lists i [] ≡ from_rows vendors i rows
    gathered : gather by.sort per_vendor vendors lists ≡ ok entries
    in_order : by.sort entries ≡ out

  selected : Selected
  unfolding select_ouis
  selected =
      let empty = replicate (length vendors) [] in
      let (lists, collected, behind) =
        bind_ok-eq-ok (collect vendors rows empty)
          (λ lists.
            bind_ok (gather by.sort per_vendor vendors lists) (λ entries. ok (by.sort entries)))
          out done in
      let (entries, gathered, last) =
        bind_ok-eq-ok (gather by.sort per_vendor vendors lists) (λ entries. ok (by.sort entries))
          out behind in
      let (_, each) =
        collect_lem vendors rows empty lists (length-replicate (length vendors) []) collected in
      record {
        lists = lists;
        entries = entries;
        each = λ i lt.
            each i lt ∙ ap (λ t. t ++ from_rows vendors i rows) (get_or-empty (length vendors) i);
        gathered = gathered;
        in_order = cc;
      }

  -- The rows offer every vendor something.
  served : (i : ℕ) → i < length vendors → (e : Entry) × IsOffered vendors rows i e
  served i lt =
      let mine = from_rows vendors i rows in
      let some_entry : 0 < length mine = rw (selected.each i lt) at (
        gather-some by per_vendor vendors selected.lists selected.entries i selected.gathered lt) in
      first-All (IsOffered vendors rows i) mine some_entry (from_rows-IsOffered vendors i rows)

-- Where selectOUIs succeeds with a bound of n entries for each vendor, the entries are in ascending
-- order, and each is offered by a row: the row's organization matches the entry's vendor and none
-- before it, and its assignment is the six hexadecimal digits of the entry's OUI, which is universal
-- and unicast. Every vendor k is offered an entry by the rows. Of a vendor i whose name no other has,
-- at most n entries are selected, and they are the lowest: for each entry c that the rows offer the
-- vendor, one with that OUI is selected, or n are selected that are not above it.
pub select_ouis_lem :
    (by : SortBy) (rows : List Row) (vendors : List Vendor) (n i k : ℕ) (c : Entry)
    (out : List Entry)
    → select_ouis by.sort rows vendors (pos n) ≡ ok out
    → ((j : ℕ) → j < length vendors → name_at vendors j ≡ name_at vendors i → j ≡ i)
    → i < length vendors
    → k < length vendors
    → IsOffered vendors rows i c
    → IsSorted out
      × All (λ e. (j : ℕ) × IsOffered vendors rows j e) out
      × ((e : Entry) × IsOffered vendors rows k e)
      × (count_of (λ e. same_bytes e.vendor (name_at vendors i)) out ≤ n)
      × ((n ≤ count_of (up_to (name_at vendors i) c) out)
          ⊎ (1 ≤ count_of (level (name_at vendors i) c) out))
select_ouis_lem by rows vendors n i k c out done apart lt hk offered =
    let s = selected by rows vendors (pos n) out done in
    let name = name_at vendors i in
    let chosen =
      gather-All by n (λ e. (j : ℕ) × IsOffered vendors rows j e) vendors s.lists s.entries
        s.gathered
        (λ j hj. rw (s.each j hj) (
          All-map _ _ (from_rows vendors j rows) (λ e h. (j, h))
            (from_rows-IsOffered vendors j rows))) in
    let few =
      gather-few by n (λ e. same_bytes e.vendor name) vendors s.lists s.entries i s.gathered
        (λ j hj other.
          rw (s.each j hj) (not_named vendors rows i j (λ same. other (apart j hj same)))) in
    (rw (← s.in_order) (
      by.ascending s.entries,
      by.same_entries _ s.entries chosen,
      served by rows vendors (pos n) out done k hk,
      rw (by.same_count s.entries (λ e. same_bytes e.vendor name)) few,
      lowest by rows vendors n i c s.entries s.lists s.gathered (s.each i lt) lt offered,
    ))
