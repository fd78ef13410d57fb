-- ===== src/Provider/Pool.antt =====
-- hashpool.go: the hash objects that `hashPool` hands out and takes back. `sync.Pool` may hand out any
-- object that it holds, make a new one although it holds some, and drop objects at any time; which
-- of these happens is the argument of a step.
pub mod Counts
pub mod Reach
use randomizer.Base.{ℕ, zero, suc, Option, none, some, List, [], ◌∷◌, get_elem?}

-- A `maphash.Hash`: the object, its seed, and what has been written to it since the last `Reset`.
pub record Hash : Type 0 where
  pub object : ℕ
  pub seed : ℕ
  pub written : List ℕ

abbrev pub reset : Hash → Hash
reset h = record { object = h.object; seed = h.seed; written = [] }

abbrev pub new_hash : ℕ → ℕ → Hash
new_hash object seed = record { object = object; seed = seed; written = [] }

abbrev pub remove {ℓ} : {A : Type ℓ} → List A → ℕ → List A
remove [] i = []
remove (x ∷ xs) zero = xs
remove (x ∷ xs) (suc i) = x ∷ remove xs i

-- `pool.Get` where the pool picks the object at a position, if it holds one there.
unfoldable pub take_pooled : List Hash → ℕ → Hash → Hash × List Hash
take_pooled pooled i made = elim (get_elem? pooled i) [
  | none ↦ (made, pooled)
  | some h ↦ (h, remove pooled i)
]

-- `Get`: `made` is the hash that would be made at the call; a nil pool always makes one.
unfoldable pub get : Option (List Hash) → ℕ → Hash → Hash × Option (List Hash)
unfolding take_pooled
get none i made = (made, none)
get (some pooled) i made = let (h, left) = take_pooled pooled i made in (h, some left)

-- `Put`: a nil pool and a nil hash are left alone.
unfoldable pub put : Option (List Hash) → Option Hash → Option (List Hash)
put none h = none
put (some pooled) none = some pooled
put (some pooled) (some h) = some (reset h ∷ pooled)
