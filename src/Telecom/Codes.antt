-- ===== src/Telecom/Codes.antt =====
-- telecom.go: the tables of body identifiers and country codes, in ASCII bytes.
use randomizer.Base.{ℕ, List, [], ◌∷◌}

abbrev pub reporting_body_ids : List (List ℕ)
reporting_body_ids =
    (48 ∷ 49 ∷ [])
    ∷ (51 ∷ 53 ∷ [])
    ∷ (56 ∷ 54 ∷ [])
    ∷ (51 ∷ 51 ∷ [])
    ∷ (52 ∷ 52 ∷ [])
    ∷ (52 ∷ 53 ∷ [])
    ∷ (52 ∷ 57 ∷ [])
    ∷ (53 ∷ 48 ∷ [])
    ∷ (53 ∷ 49 ∷ [])
    ∷ (53 ∷ 50 ∷ [])
    ∷ (53 ∷ 51 ∷ [])
    ∷ (53 ∷ 52 ∷ [])
    ∷ (57 ∷ 49 ∷ [])
    ∷ (57 ∷ 56 ∷ [])
    ∷ []

abbrev pub country_codes : List (List ℕ)
country_codes =
    (49 ∷ [])
    ∷ (55 ∷ [])
    ∷ (50 ∷ 48 ∷ [])
    ∷ (50 ∷ 55 ∷ [])
    ∷ (51 ∷ 48 ∷ [])
    ∷ (51 ∷ 49 ∷ [])
    ∷ (51 ∷ 50 ∷ [])
    ∷ (51 ∷ 51 ∷ [])
    ∷ (51 ∷ 52 ∷ [])
    ∷ (51 ∷ 54 ∷ [])
    ∷ (51 ∷ 57 ∷ [])
    ∷ (52 ∷ 48 ∷ [])
    ∷ (52 ∷ 49 ∷ [])
    ∷ (52 ∷ 51 ∷ [])
    ∷ (52 ∷ 52 ∷ [])
    ∷ (52 ∷ 53 ∷ [])
    ∷ (52 ∷ 54 ∷ [])
    ∷ (52 ∷ 55 ∷ [])
    ∷ (52 ∷ 56 ∷ [])
    ∷ (52 ∷ 57 ∷ [])
    ∷ (53 ∷ 49 ∷ [])
    ∷ (53 ∷ 50 ∷ [])
    ∷ (53 ∷ 51 ∷ [])
    ∷ (53 ∷ 52 ∷ [])
    ∷ (53 ∷ 53 ∷ [])
    ∷ (53 ∷ 54 ∷ [])
    ∷ (53 ∷ 55 ∷ [])
    ∷ (53 ∷ 56 ∷ [])
    ∷ (54 ∷ 48 ∷ [])
    ∷ (54 ∷ 49 ∷ [])
    ∷ (54 ∷ 50 ∷ [])
    ∷ (54 ∷ 51 ∷ [])
    ∷ (54 ∷ 52 ∷ [])
    ∷ (54 ∷ 53 ∷ [])
    ∷ (54 ∷ 54 ∷ [])
    ∷ (56 ∷ 49 ∷ [])
    ∷ (56 ∷ 50 ∷ [])
    ∷ (56 ∷ 52 ∷ [])
    ∷ (56 ∷ 54 ∷ [])
    ∷ (57 ∷ 48 ∷ [])
    ∷ (57 ∷ 49 ∷ [])
    ∷ (57 ∷ 50 ∷ [])
    ∷ (57 ∷ 51 ∷ [])
    ∷ (57 ∷ 52 ∷ [])
    ∷ (57 ∷ 53 ∷ [])
    ∷ (57 ∷ 56 ∷ [])
    ∷ (50 ∷ 49 ∷ 50 ∷ [])
    ∷ (50 ∷ 49 ∷ 51 ∷ [])
    ∷ (50 ∷ 49 ∷ 54 ∷ [])
    ∷ (50 ∷ 49 ∷ 56 ∷ [])
    ∷ (50 ∷ 51 ∷ 52 ∷ [])
    ∷ (50 ∷ 53 ∷ 52 ∷ [])
    ∷ (51 ∷ 53 ∷ 49 ∷ [])
    ∷ (51 ∷ 53 ∷ 50 ∷ [])
    ∷ (51 ∷ 53 ∷ 51 ∷ [])
    ∷ (51 ∷ 53 ∷ 52 ∷ [])
    ∷ (51 ∷ 53 ∷ 56 ∷ [])
    ∷ (51 ∷ 53 ∷ 57 ∷ [])
    ∷ (51 ∷ 55 ∷ 48 ∷ [])
    ∷ (51 ∷ 55 ∷ 49 ∷ [])
    ∷ (51 ∷ 55 ∷ 50 ∷ [])
    ∷ (51 ∷ 56 ∷ 48 ∷ [])
    ∷ (51 ∷ 56 ∷ 49 ∷ [])
    ∷ (51 ∷ 56 ∷ 53 ∷ [])
    ∷ (51 ∷ 56 ∷ 54 ∷ [])
    ∷ (52 ∷ 50 ∷ 48 ∷ [])
    ∷ (52 ∷ 50 ∷ 49 ∷ [])
    ∷ (56 ∷ 53 ∷ 50 ∷ [])
    ∷ (56 ∷ 53 ∷ 51 ∷ [])
    ∷ (56 ∷ 53 ∷ 53 ∷ [])
    ∷ (56 ∷ 53 ∷ 54 ∷ [])
    ∷ (56 ∷ 56 ∷ 48 ∷ [])
    ∷ (56 ∷ 56 ∷ 54 ∷ [])
    ∷ (57 ∷ 54 ∷ 48 ∷ [])
    ∷ (57 ∷ 54 ∷ 49 ∷ [])
    ∷ (57 ∷ 54 ∷ 50 ∷ [])
    ∷ (57 ∷ 54 ∷ 51 ∷ [])
    ∷ (57 ∷ 54 ∷ 52 ∷ [])
    ∷ (57 ∷ 54 ∷ 53 ∷ [])
    ∷ (57 ∷ 54 ∷ 54 ∷ [])
    ∷ (57 ∷ 54 ∷ 55 ∷ [])
    ∷ (57 ∷ 54 ∷ 56 ∷ [])
    ∷ (57 ∷ 55 ∷ 49 ∷ [])
    ∷ (57 ∷ 55 ∷ 50 ∷ [])
    ∷ (57 ∷ 55 ∷ 51 ∷ [])
    ∷ (57 ∷ 55 ∷ 52 ∷ [])
    ∷ (57 ∷ 55 ∷ 53 ∷ [])
    ∷ (57 ∷ 55 ∷ 54 ∷ [])
    ∷ (57 ∷ 55 ∷ 55 ∷ [])
    ∷ (57 ∷ 57 ∷ 50 ∷ [])
    ∷ (57 ∷ 57 ∷ 51 ∷ [])
    ∷ (57 ∷ 57 ∷ 52 ∷ [])
    ∷ (57 ∷ 57 ∷ 53 ∷ [])
    ∷ (57 ∷ 57 ∷ 54 ∷ [])
    ∷ (57 ∷ 57 ∷ 56 ∷ [])
    ∷ []
