-- ===== src/Examples/Ouigen.antt =====
-- internal/ouigen/main.go on a small registry.
use randomizer.Base.{
  ℕ, zero, suc, ◌≤◌, ◌<◌, ◌≡◌, refl, ap, ◌⊎◌, inl, inr, true, ◌&&◌, List, [], ◌∷◌, arith, leb, ◌==◌,
  if◌then◌else◌, length, get_or, take, All, same_bytes, codes,
}
use Prim.Native.String.{String}
use randomizer.Base.Int.{pos, negsuc}
use randomizer.Ouigen.{
  Vendor, Row, Entry, bad_oui, unmatched, ok, failed, crashed, accepted, is_hex, decode_oui,
  find_vendor, is_universal, name_at, select_ouis,
}
use randomizer.Ouigen.Vendors.{vendors}
use randomizer.Ouigen.Decode.{all_hex, octets, decode_oui_lem}
use randomizer.Ouigen.Sorting.{IsSorted, count_of, insert_entry, insertion_sort, by_insertion}
use randomizer.Ouigen.Registry.{fields, Text, is_large, read_registry}
use randomizer.Ouigen.Selection.{IsOffered, up_to, level}
use randomizer.Ouigen.Selection.Lowest.{select_ouis_lem}
use randomizer.Ouigen.Selection.Succeeds.{IsSound, select_ouis_succeeds}
use randomizer.Ouigen.Disjoint.{accepts_at, vendors-apart}

abbrev maker : Vendor
maker = record { name = codes "A"; accepts = codes "Acme" ∷ codes "Acme Ltd" ∷ [] }

abbrev other_maker : Vendor
other_maker = record { name = codes "B"; accepts = codes "Bell" ∷ [] }

abbrev two_vendors : List Vendor
two_vendors = maker ∷ other_maker ∷ []

abbrev row : String → String → Row
row a o = record { assignment = codes a; org = codes o }

-- The second row is multicast, and nobody asks for the fourth.
abbrev registry : List Row
registry =
    row "0000AA" "Acme"
    ∷ row "0100AA" "Acme"
    ∷ row "000001" "Bell"
    ∷ row "zz" "Nobody"
    ∷ row "000002" "Acme Ltd"
    ∷ []

abbrev selection : List Entry
selection =
    record { oui = 0 ∷ 0 ∷ 1 ∷ []; vendor = codes "B"; org = codes "Bell" }
    ∷ record { oui = 0 ∷ 0 ∷ 2 ∷ []; vendor = codes "A"; org = codes "Acme Ltd" }
    ∷ []

selects : select_ouis insertion_sort registry two_vendors (pos 1) ≡ ok selection
unfolding select_ouis find_vendor accepted same_bytes decode_oui is_hex is_universal insertion_sort
    insert_entry
selects = refl

negative_bound : select_ouis insertion_sort registry two_vendors (negsuc 0) ≡ crashed
unfolding select_ouis find_vendor accepted same_bytes decode_oui is_hex is_universal insertion_sort
    insert_entry
negative_bound = refl

vendor_without_row :
    select_ouis insertion_sort (row "0000AA" "Acme" ∷ []) two_vendors (pos 1)
    ≡ failed (unmatched (codes "B"))
unfolding select_ouis find_vendor accepted same_bytes decode_oui is_hex is_universal insertion_sort
    insert_entry
vendor_without_row = refl

-- An assignment of eight digits is not refused, as one of seven is: it panics.
seven_digits : decode_oui (codes "0000AA1") ≡ failed (bad_oui (codes "0000AA1"))
unfolding decode_oui is_hex
seven_digits = refl

eight_digits : decode_oui (codes "0000AA11") ≡ crashed
unfolding decode_oui is_hex
eight_digits = refl

abbrev plain_text : Text
plain_text = record { to_upper = λ s. s; trim_space = λ s. s }

reads_registry :
    read_registry plain_text (
      fields (codes "Registry" ∷ codes "Assignment" ∷ codes "Organization Name" ∷ codes "x" ∷ [])
      ∷ fields (codes "MA-L" ∷ codes "0000AA" ∷ codes "Acme" ∷ [])
      ∷ fields (codes "MA-M" ∷ codes "0000AA1" ∷ codes "Acme" ∷ [])
      ∷ [])
    ≡ ok (row "0000AA" "Acme" ∷ [])
unfolding read_registry is_large same_bytes
reads_registry = refl

decode_oui_lem_example : decode_oui (codes "0011aF") ≡ (
    if leb 8 (length (codes "0011aF")) && all_hex (take 8 (codes "0011aF"))
    then crashed
    else if length (codes "0011aF") == 6 && all_hex (codes "0011aF")
    then ok (octets (codes "0011aF"))
    else failed (bad_oui (codes "0011aF")))
decode_oui_lem_example = decode_oui_lem (codes "0011aF")

abbrev acme : Entry
acme = record { oui = 0 ∷ 0 ∷ 0xaa ∷ []; vendor = codes "A"; org = codes "Acme" }

acme-IsOffered : IsOffered two_vendors registry 0 acme
unfolding accepted same_bytes all_hex is_hex octets
acme-IsOffered = inl (refl, refl, refl, refl, refl, refl, refl)

abbrev bell : Entry
bell = record { oui = 0 ∷ 0 ∷ 1 ∷ []; vendor = codes "B"; org = codes "Bell" }

bell-IsOffered : IsOffered two_vendors registry 1 bell
unfolding accepted same_bytes all_hex is_hex octets
bell-IsOffered = inr (inr (inl ((refl, refl), refl, refl, refl, refl, refl, refl)))

names_differ : (j : ℕ) → j < 2 → name_at two_vendors j ≡ codes "A" → j ≡ 0
names_differ zero lt e = refl
names_differ (suc zero) lt e =
    absurd (let heads : b'B' ≡ b'A' = ap (λ s. get_or s 0 0) e in omega arith)
names_differ (suc (suc j)) lt e = absurd (omega arith)

select_ouis_lem_example :
    IsSorted selection
    × All (λ e. (j : ℕ) × IsOffered two_vendors registry j e) selection
    × ((e : Entry) × IsOffered two_vendors registry 1 e)
    × (count_of (λ e. same_bytes e.vendor (codes "A")) selection ≤ 1)
    × ((1 ≤ count_of (up_to (codes "A") acme) selection)
        ⊎ (1 ≤ count_of (level (codes "A") acme) selection))
select_ouis_lem_example =
    select_ouis_lem by_insertion registry two_vendors 1 0 1 acme selection selects names_differ
      (omega arith) (omega arith) acme-IsOffered

registry-IsSound : All (IsSound two_vendors) registry
unfolding accepted same_bytes all_hex is_hex
registry-IsSound = (
  inr (refl, refl),
  (inr (refl, refl), (inr (refl, refl), (inl (refl, (refl, tt)), (inr (refl, refl), tt)))),
)

each_served : (i : ℕ) → i < 2 → (e : Entry) × IsOffered two_vendors registry i e
each_served zero lt = (acme, acme-IsOffered)
each_served (suc zero) lt = (bell, bell-IsOffered)
each_served (suc (suc i)) lt = absurd (omega arith)

select_ouis_succeeds_example :
    (out : List Entry) × (select_ouis insertion_sort registry two_vendors (pos 1) ≡ ok out)
select_ouis_succeeds_example =
    select_ouis_succeeds by_insertion registry two_vendors 1 registry-IsSound each_served

abbrev fifth : ℕ
fifth = 4

apple-accepted : accepted (accepts_at vendors fifth) (codes "Apple, Inc.") ≡ true
unfolding accepted vendors same_bytes
apple-accepted = refl

vendors-apart_example : fifth ≡ fifth
unfolding vendors
vendors-apart_example =
    vendors-apart fifth fifth (codes "Apple, Inc.") (omega arith) (omega arith) apple-accepted
      apple-accepted
