-- ===== src/Ouigen/Registry.antt =====
-- `readRegistry` and `run`: from the records of the registry's CSV to the entries. The CSV reader, the
-- text operations, the network and the file are parameters or left out.
use randomizer.Base.{
  ℕ, Bool, false, ◌&&◌, List, [], ◌∷◌, ltb, if◌then◌else◌, length, get_or, same_bytes, codes,
}
use randomizer.Base.Int.{ℤ}
use randomizer.Ouigen.{
  Vendor, Row, Entry, bad_header, read_failed, Result, ok, failed, bind_ok, select_ouis,
}

-- What a call of the CSV reader gives: the fields of a record, or an error; behind the last it is at
-- its end.
pub data Reading : Type 0 where
  fields : List (List ℕ) → Reading
  broken : Reading

-- `strings.ToUpper` and `strings.TrimSpace`.
pub record Text : Type 0 where
  pub to_upper : List ℕ → List ℕ
  pub trim_space : List ℕ → List ℕ

abbrev pub field_at : List (List ℕ) → ℕ → List ℕ
field_at fs i = get_or fs i []

abbrev pub row_of : Text → List (List ℕ) → Row
row_of text fs = record {
  assignment = text.to_upper (field_at fs 1);
  org = text.trim_space (field_at fs 2);
}

-- A record of the large registry.
unfoldable pub is_large : List (List ℕ) → Bool
is_large fs = if ltb (length fs) 3 then false else same_bytes (field_at fs 0) (codes "MA-L")

-- The loop over the records.
unfoldable pub read_rows : Text → List Reading → Result (List Row)
unfolding is_large
read_rows text [] = ok []
read_rows text (broken ∷ readings) = failed read_failed
read_rows text (fields fs ∷ readings) =
    let later = read_rows text readings in
    let more = bind_ok later (λ rows. ok (row_of text fs ∷ rows)) in
    if is_large fs then more else later

unfoldable pub is_header : List (List ℕ) → Bool
is_header fs =
    if ltb (length fs) 3
    then false
    else same_bytes (field_at fs 0) (codes "Registry")
      && same_bytes (field_at fs 1) (codes "Assignment")
      && same_bytes (field_at fs 2) (codes "Organization Name")

unfoldable pub read_registry : Text → List Reading → Result (List Row)
unfolding read_rows is_header
read_registry text [] = failed read_failed
read_registry text (broken ∷ readings) = failed read_failed
read_registry text (fields fs ∷ readings) =
    if is_header fs then read_rows text readings else failed bad_header

-- `run` between the download and the writing of the file.
unfoldable pub run :
    Text → (List Entry → List Entry) → List Vendor → List Reading → ℤ → Result (List Entry)
unfolding read_registry select_ouis
run text sort vendors readings per_vendor =
    bind_ok (read_registry text readings) (λ rows. select_ouis sort rows vendors per_vendor)
