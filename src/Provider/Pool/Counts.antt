-- ===== src/Provider/Pool/Counts.antt =====
-- How often an object occurs among the hashes of a pool or of its users.
use randomizer.Base.{
  ℕ, zero, suc, ◌+◌, ◌≤◌, ◌≡◌, refl, some, List, [], ◌∷◌, arith, ◌==◌, if◌then◌else◌, get_elem?,
  set, set, All,
}
use randomizer.Provider.Pool.{Hash, remove}

-- How often an object occurs.
abbrev pub count : ℕ → List Hash → ℕ
count o [] = 0
count o (h ∷ hs) = (if h.object == o then 1 else 0) + count o hs

unfoldable pub one_if : ℕ → Hash → ℕ
one_if o h = if h.object == o then 1 else 0

pub count-remove :
    (o : ℕ) (hs : List Hash) (i : ℕ) (h : Hash)
    → get_elem? hs i ≡ some h
    → count o hs ≡ one_if o h + count o (remove hs i)
unfolding one_if
count-remove o [] i h e = absurd (let bad = e in cc)
count-remove o (x ∷ hs) zero h e = ground arith
count-remove o (x ∷ hs) (suc i) h e = omega (arith, count-remove o hs i h e)

pub count-remove-le : (o : ℕ) (hs : List Hash) (i : ℕ) → count o (remove hs i) ≤ count o hs
count-remove-le o [] i = omega arith
count-remove-le o (x ∷ hs) zero = omega arith
count-remove-le o (x ∷ hs) (suc i) = omega (arith, count-remove-le o hs i)

pub count-set :
    (o : ℕ) (hs : List Hash) (i : ℕ) (h h' : Hash)
    → get_elem? hs i ≡ some h
    → h'.object ≡ h.object
    → count o (set hs i h') ≡ count o hs
count-set o [] i h h' e same = refl
count-set o (x ∷ hs) zero h h' e same =
    let there : h'.object ≡ x.object = ground arith in rw there refl
count-set o (x ∷ hs) (suc i) h h' e same = omega (arith, count-set o hs i h h' e same)

abbrev pub IsEmpty : Hash → Type 0
IsEmpty h = h.written ≡ []

pub All-remove : (hs : List Hash) (i : ℕ) → All IsEmpty hs → All IsEmpty (remove hs i)
All-remove [] i a = a
All-remove (x ∷ hs) zero a = a.1
All-remove (x ∷ hs) (suc i) a = (a.0, All-remove hs i a.1)

pub All-at :
    (hs : List Hash) (i : ℕ) (h : Hash) → All IsEmpty hs → get_elem? hs i ≡ some h → IsEmpty h
All-at [] i h a e = cc
All-at (x ∷ hs) zero h a e = ground (arith, a.0)
All-at (x ∷ hs) (suc i) h a e = All-at hs i h a.1 e
