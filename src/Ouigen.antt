-- ===== src/Ouigen.antt =====
-- internal/ouigen/main.go: which assignments of the registry become the vendor table.
pub mod Vendors
pub mod Decode
pub mod First
pub mod Sorting
pub mod Rows
pub mod Gather
pub mod Selection
pub mod Registry
pub mod Disjoint
use randomizer.Base.{
  ℕ, zero, suc, ◌+◌, ◌-◌, ◌*◌, bit_and, Bool, true, false, ◌&&◌, ◌||◌, Option, none, some, List, [],
  ◌∷◌, ◌++◌, leb, ◌==◌, if◌then◌else◌, length, get_or, take, replicate, set, set, same_bytes,
}
use randomizer.Base.Int.{ℤ, pos, negsuc}

pub record Vendor : Type 0 where
  pub name : List ℕ
  pub accepts : List (List ℕ)

-- A row of the registry: the assignment and the organization.
pub record Row : Type 0 where
  pub assignment : List ℕ
  pub org : List ℕ

pub record Entry : Type 0 where
  pub oui : List ℕ
  pub vendor : List ℕ
  pub org : List ℕ

-- The errors of the generator, and its panics.
pub data Problem : Type 0 where
  bad_oui unmatched : List ℕ → Problem
  bad_header read_failed : Problem

pub data Result {ℓ} (A : Type ℓ) : Type ℓ where
  ok : A → Result A
  failed : Problem → Result A
  crashed : Result A

abbrev pub bind_ok {ℓ κ} : {A : Type ℓ} {B : Type κ} → Result A → (A → Result B) → Result B
bind_ok (ok a) f = f a
bind_ok (failed e) f = failed e
bind_ok crashed f = crashed

-- `MatchString` of a vendor's pattern.
unfoldable pub accepted : List (List ℕ) → List ℕ → Bool
accepted [] org = false
accepted (name ∷ names) org = if same_bytes name org then true else accepted names org

-- The first vendor whose pattern matches, by its position.
unfoldable pub find_vendor : List Vendor → List ℕ → Option ℕ
unfolding accepted
find_vendor [] org = none
find_vendor (v ∷ vendors) org =
    let later : Option ℕ = elim (find_vendor vendors org) [ none ↦ none | some i ↦ some (suc i) ] in
    if accepted v.accepts org then some 0 else later

-- `reverseHexTable` of encoding/hex.
unfoldable pub is_hex : ℕ → Bool
is_hex c = leb b'0' c && leb c b'9' || leb b'a' c && leb c b'f' || leb b'A' c && leb c b'F'

abbrev pub hex_digit : ℕ → ℕ
hex_digit c = if leb c b'9' then c - b'0' else if leb c b'F' then c - b'A' + 10 else c - b'a' + 10

pub data Decoded : Type 0 where
  bytes : List ℕ → Decoded
  invalid overrun : Decoded

abbrev pub add_byte : ℕ → Decoded → Decoded
add_byte b (bytes bs) = bytes (b ∷ bs)
add_byte b invalid = invalid
add_byte b overrun = overrun

-- `hex.Decode` into an array with `room` bytes left: a byte behind the array is a panic.
unfoldable pub hex_decode : ℕ → List ℕ → Decoded
hex_decode room [] = bytes []
hex_decode room (p ∷ []) = invalid
hex_decode zero (p ∷ q ∷ rest) = if is_hex p && is_hex q then overrun else invalid
hex_decode (suc room) (p ∷ q ∷ rest) =
    let more = add_byte (hex_digit p * 16 + hex_digit q) (hex_decode room rest) in
    if is_hex p && is_hex q then more else invalid

-- The OUI of a row: three bytes, from six digits.
unfoldable pub decode_oui : List ℕ → Result (List ℕ)
unfolding hex_decode
decode_oui assignment = elim (hex_decode 3 assignment) [
  | bytes oui ↦ if length assignment == 6 then ok oui else failed (bad_oui assignment)
  | invalid ↦ failed (bad_oui assignment)
  | overrun ↦ crashed
]

-- Neither a multicast nor a locally administered address.
unfoldable pub is_universal : List ℕ → Bool
is_universal oui = bit_and (get_or oui 0 0) 0x03 == 0

abbrev pub name_at : List Vendor → ℕ → List ℕ
name_at [] i = []
name_at (v ∷ vendors) zero = v.name
name_at (v ∷ vendors) (suc i) = name_at vendors i

abbrev pub entry_of : List Vendor → ℕ → Row → List ℕ → Entry
entry_of vendors i row oui = record { oui = oui; vendor = name_at vendors i; org = row.org }

abbrev pub add_entry : List (List Entry) → ℕ → Entry → List (List Entry)
add_entry lists i e = set lists i (get_or lists i [] ++ e ∷ [])

-- What a row that a vendor matches adds to the vendor's list.
unfoldable pub place : List Vendor → Row → ℕ → List (List Entry) → List ℕ → List (List Entry)
unfolding is_universal
place vendors row i lists oui =
    if is_universal oui then add_entry lists i (entry_of vendors i row oui) else lists

-- The loop over the rows, which fills a list for each vendor.
unfoldable pub collect : List Vendor → List Row → List (List Entry) → Result (List (List Entry))
unfolding find_vendor decode_oui place
collect vendors [] lists = ok lists
collect vendors (row ∷ rows) lists = elim (find_vendor vendors row.org) [
  | none ↦ collect vendors rows lists
  | some i ↦
      bind_ok (decode_oui row.assignment)
        (λ oui. collect vendors rows (place vendors row i lists oui))
]

-- `list[:min(perVendor, len(list))]`: a negative bound panics.
unfoldable pub first_of : ℤ → List Entry → Result (List Entry)
first_of (negsuc n) list = crashed
first_of (pos n) list = ok (take n list)

-- The loop over the vendors.
unfoldable pub gather :
    (List Entry → List Entry) → ℤ → List Vendor → List (List Entry) → Result (List Entry)
unfolding first_of
gather sort per_vendor [] lists = ok []
gather sort per_vendor (v ∷ vendors) [] = failed (unmatched v.name)
gather sort per_vendor (v ∷ vendors) ([] ∷ lists) = failed (unmatched v.name)
gather sort per_vendor (v ∷ vendors) ((e ∷ es) ∷ lists) =
    bind_ok (first_of per_vendor (sort (e ∷ es)))
      (λ kept. bind_ok (gather sort per_vendor vendors lists) (λ rest. ok (kept ++ rest)))

-- `selectOUIs`, with the sorting by OUI as a parameter.
unfoldable pub select_ouis :
    (List Entry → List Entry) → List Row → List Vendor → ℤ → Result (List Entry)
unfolding collect gather
select_ouis sort rows vendors per_vendor =
    bind_ok (collect vendors rows (replicate (length vendors) []))
      (λ lists. bind_ok (gather sort per_vendor vendors lists) (λ entries. ok (sort entries)))
