-- ===== src/Network.antt =====
-- network.go: the buffer that a generator writes to.
use randomizer.Base.{
  ℕ, ◌≤◌, ◌<◌, ◌≡◌, refl, ◌⊎◌, inl, inr, List, ◌++◌, arith, ltb, if◌then◌else◌, ltb→lt, ltb→le,
  Bool-cases, length, take, drop, length-append, drop-append, take-append, length-drop,
}

-- What a generator returns: the bytes, and the array behind the caller's slice as it is left.
pub record Written : Type 0 where
  pub bytes : List ℕ
  pub array : List ℕ

-- `fixedBytes` and the writes to all of its bytes. `array` is the caller's array up to the
-- capacity of the slice: it is written in place if it has the room, else a fresh one is made.
unfoldable pub fixed_bytes : List ℕ → List ℕ → Written
fixed_bytes array bs =
    if ltb (length array) (length bs)
    then record { bytes = bs; array = array }
    else record { bytes = bs; array = bs ++ drop (length bs) array }

-- What is left of an array whose front takes the bytes where it has the room, and which is not
-- written where it has not.
abbrev pub IsHeld : List ℕ → List ℕ → List ℕ → Type 0
IsHeld array bytes left =
    (length left ≡ length array)
    × (drop (length bytes) left ≡ drop (length bytes) array)
    × ((length bytes ≤ length array) × (take (length bytes) left ≡ bytes)
        ⊎ (length array < length bytes) × (left ≡ array))

pub fixed_bytes_lem :
    (array bs : List ℕ)
    → ((fixed_bytes array bs).bytes ≡ bs) × IsHeld array bs (fixed_bytes array bs).array
unfolding fixed_bytes
fixed_bytes_lem array bs = elim (Bool-cases (ltb (length array) (length bs))) [
  | inl e ↦ rw e (refl, (refl, refl, inr (ltb→lt _ _ e, refl)))
  | inr e ↦ rw e (
    refl,
    (
      omega (
        arith,
        length-append bs (drop (length bs) array),
        length-drop (length bs) array,
        ltb→le _ _ e,
      ),
      drop-append bs (drop (length bs) array),
      inl (ltb→le _ _ e, take-append bs (drop (length bs) array)),
    ),
  )
]
