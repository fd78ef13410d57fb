-- ===== src/Base/Drawing.antt =====
-- Code that draws random words: it takes the 64-bit words that the active provider is going to
-- return, one for each `Sum64` call, and gives back those it has not drawn. `none` stands for a
-- call that wants more words than there are: a rejection loop that has not ended yet.
use Prim.Native.Nat.{ℕ}
use mathlib.Core.Path.{◌≡◌}
use mathlib.Core.List.{List, [], ◌∷◌}
use mathlib.Core.Option.{Option, none, some}
use mathlib.Core.Logic.{inl, inr}
use randomizer.Base.Tests.{Option-cases}
use randomizer.Base.Word.{IsU64}
use randomizer.Base.Lists.{All, Any, AnyThen, AnyThen-Any}

abbrev pub Draw {ℓ} : Type ℓ → Type ℓ
Draw A = List ℕ → Option (A × List ℕ)

abbrev pub pure {ℓ} : {A : Type ℓ} → A → Draw A
pure a ws = some (a, ws)

abbrev pub bind_result {ℓ κ} :
    {A : Type ℓ} {B : Type κ} → Option (A × List ℕ) → (A → Draw B) → Option (B × List ℕ)
bind_result none f = none
bind_result (some (a, ws)) f = f a ws

infixl 5 ◌>>=◌ ◌>>◌
abbrev pub ◌>>=◌ {ℓ κ} : {A : Type ℓ} {B : Type κ} → Draw A → (A → Draw B) → Draw B
◌>>=◌ m f ws = bind_result (m ws) f

abbrev pub ◌>>◌ {ℓ κ} : {A : Type ℓ} {B : Type κ} → Draw A → Draw B → Draw B
m >> k = m >>= λ _. k

abbrev pub sum64 : Draw ℕ
sum64 [] = none
sum64 (x ∷ ws) = some (x, ws)

-- The code returned, with `P` of its value and 64-bit words left over.
abbrev pub Returns {ℓ} : {A : Type ℓ} → (A → Type 0) → Option (A × List ℕ) → Type 0
Returns P none = ⊥
Returns P (some (a, ws)) = P a × All IsU64 ws

-- A computation that returns, followed by one that returns on each of its results.
pub Returns-bind {ℓ κ} :
    {A : Type ℓ} {B : Type κ} (P : A → Type 0) (Q : B → Type 0) (r : Option (A × List ℕ))
    (f : A → Draw B)
    → Returns P r
    → ((a : A) (ws : List ℕ) → P a → All IsU64 ws → Returns Q (f a ws))
    → Returns Q (bind_result r f)
Returns-bind P Q none f h k = absurd h
Returns-bind P Q (some (a, ws)) f h k = k a ws h.0 h.1

pub Returns-weaken {ℓ} :
    {A : Type ℓ} (P Q : A → Type 0) (r : Option (A × List ℕ))
    → Returns P r
    → ((a : A) → P a → Q a)
    → Returns Q r
Returns-weaken P Q none h k = absurd h
Returns-weaken P Q (some (a, ws)) h k = (k a h.0, h.1)

-- An accepted value, with the words left over, or what redrawing gives.
abbrev settle {ℓ} : {A : Type ℓ} → Option A → List ℕ → Option (A × List ℕ) → Option (A × List ℕ)
settle none ws redrawn = redrawn
settle (some a) ws redrawn = some (a, ws)

-- A rejection loop at the word `x`: the first word that is accepted gives the value, the others
-- are thrown away.
unfoldable pub draw_until {ℓ} : {A : Type ℓ} → (ℕ → Option A) → ℕ → Draw A
draw_until accept x [] = settle (accept x) [] none
draw_until accept x (w ∷ ws) = settle (accept x) (w ∷ ws) (draw_until accept w ws)

-- The word is accepted.
abbrev pub IsFound {ℓ} : {A : Type ℓ} → Option A → Type 0
IsFound none = ⊥
IsFound (some a) = Unit {0}

-- With an accepted word among `x` and those to come the loop ends.
pub draw_until-Returns {ℓ} :
    {A : Type ℓ} (P : A → Type 0) (accept : ℕ → Option A) (x : ℕ) (ws : List ℕ)
    → ((y : ℕ) (a : A) → IsU64 y → accept y ≡ some a → P a)
    → IsU64 x
    → All IsU64 ws
    → Any (λ y. IsFound (accept y)) (x ∷ ws)
    → Returns P (draw_until accept x ws)
unfolding draw_until
draw_until-Returns P accept x [] good hx hs live = elim (Option-cases (accept x)) [
  | inl e ↦ elim live [ inl n ↦ absurd (rw e at n) | inr b ↦ absurd b ]
  | inr (a, e) ↦ rw e (good x a hx e, tt)
]
draw_until-Returns P accept x (w ∷ ws) good hx hs live = elim (Option-cases (accept x)) [
  | inl e ↦ rw e (
      draw_until-Returns P accept w ws good hs.0 hs.1
        (elim live [ inl n ↦ absurd (rw e at n) | inr b ↦ b ]))
  | inr (a, e) ↦ rw e (good x a hx e, hs)
]

-- The loop leaves the words behind the first accepted one, so that a second loop can be fed by them.
abbrev pub Leaves {ℓ} : {A : Type ℓ} → (ℕ → Type 0) → Option (A × List ℕ) → Type 0
Leaves Q none = ⊥
Leaves Q (some (a, ws)) = Any Q ws

pub draw_until-Leaves {ℓ} :
    {A : Type ℓ} (Q : ℕ → Type 0) (accept : ℕ → Option A) (x : ℕ) (ws : List ℕ)
    → AnyThen (λ y. IsFound (accept y)) Q (x ∷ ws)
    → Leaves Q (draw_until accept x ws)
unfolding draw_until
draw_until-Leaves Q accept x [] h = elim h [ inl p ↦ absurd p.1 | inr b ↦ absurd b ]
draw_until-Leaves Q accept x (w ∷ ws) h = elim (Option-cases (accept x)) [
  | inl e ↦
      rw e (draw_until-Leaves Q accept w ws (elim h [ inl p ↦ absurd (rw e at p.0) | inr t ↦ t ]))
  | inr (a, e) ↦ rw e (elim h [ inl p ↦ p.1 | inr t ↦ AnyThen-Any _ Q (w ∷ ws) t ])
]

-- A loop that returns with words to feed the next one.
pub Returns-bind_Leaves {ℓ κ} :
    {A : Type ℓ} {B : Type κ} (P : A → Type 0) (L : ℕ → Type 0) (Q : B → Type 0)
    (r : Option (A × List ℕ)) (f : A → Draw B)
    → Returns P r
    → Leaves L r
    → ((a : A) (ws : List ℕ) → P a → All IsU64 ws → Any L ws → Returns Q (f a ws))
    → Returns Q (bind_result r f)
Returns-bind_Leaves P L Q none f h l k = absurd h
Returns-bind_Leaves P L Q (some (a, ws)) f h l k = k a ws h.0 h.1 l

-- Whatever the code returns satisfies `P`, with 64-bit words left over.
abbrev pub Ensures {ℓ} : {A : Type ℓ} → (A → Type 0) → Option (A × List ℕ) → Type 0
Ensures P none = Unit
Ensures P (some (a, ws)) = P a × All IsU64 ws

pub Ensures-bind {ℓ κ} :
    {A : Type ℓ} {B : Type κ} (P : A → Type 0) (Q : B → Type 0) (r : Option (A × List ℕ))
    (f : A → Draw B)
    → Ensures P r
    → ((a : A) (ws : List ℕ) → P a → All IsU64 ws → Ensures Q (f a ws))
    → Ensures Q (bind_result r f)
Ensures-bind P Q none f h k = tt
Ensures-bind P Q (some (a, ws)) f h k = k a ws h.0 h.1
