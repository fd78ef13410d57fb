-- ===== src/Base/Supply.antt =====
-- How many words a generator may still draw: a count of the words that every loop of it accepts.
use Prim.Native.Nat.{ℕ, zero, suc}
use mathlib.Core.Path.{◌≡◌}
use mathlib.Core.List.{List, [], ◌∷◌}
use mathlib.Core.Option.{Option, none, some}
use mathlib.Core.Logic.{◌⊎◌, inl, inr}
use randomizer.Base.Tests.{Option-cases}
use randomizer.Base.Word.{IsU64}
use randomizer.Base.Lists.{All}
use randomizer.Base.Drawing.{Draw, bind_result, draw_until, IsFound}

-- At least `k` of the words satisfy `G`.
abbrev pub Plenty : (ℕ → Type 0) → ℕ → List ℕ → Type 0
Plenty G zero ws = Unit
Plenty G (suc k) [] = ⊥
Plenty G (suc k) (x ∷ ws) = G x × Plenty G k ws ⊎ Plenty G (suc k) ws

-- The code returned, with `P` of its value, and `k` good words are left.
abbrev pub Gives {ℓ} : {A : Type ℓ} → (ℕ → Type 0) → ℕ → (A → Type 0) → Option (A × List ℕ) → Type 0
Gives G k P none = ⊥
Gives G k P (some (a, ws)) = P a × All IsU64 ws × Plenty G k ws

module _ (G : ℕ → Type 0) where
  pub Plenty-suc : (k : ℕ) (ws : List ℕ) → Plenty G (suc k) ws → Plenty G k ws
  Plenty-suc zero ws h = tt
  Plenty-suc (suc k) [] h = absurd h
  Plenty-suc (suc k) (x ∷ ws) (inl h) = inl (h.0, Plenty-suc k ws h.1)
  Plenty-suc (suc k) (x ∷ ws) (inr h) = inr (Plenty-suc (suc k) ws h)

  pub Plenty-past : (k x : ℕ) (ws : List ℕ) → Plenty G (suc k) (x ∷ ws) → Plenty G k ws
  Plenty-past k x ws (inl h) = h.1
  Plenty-past k x ws (inr h) = Plenty-suc k ws h

  pub Gives-bind {ℓ κ} :
      {A : Type ℓ} {B : Type κ} (j k : ℕ) (P : A → Type 0) (Q : B → Type 0)
      (r : Option (A × List ℕ)) (f : A → Draw B)
      → Gives G j P r
      → ((a : A) (ws : List ℕ) → P a → All IsU64 ws → Plenty G j ws → Gives G k Q (f a ws))
      → Gives G k Q (bind_result r f)
  Gives-bind j k P Q none f h c = absurd h
  Gives-bind j k P Q (some (a, ws)) f h c = c a ws h.0 h.1 h.2

  pub Gives-weaken {ℓ} :
      {A : Type ℓ} (k : ℕ) (P Q : A → Type 0) (r : Option (A × List ℕ))
      → Gives G k P r
      → ((a : A) → P a → Q a)
      → Gives G k Q r
  Gives-weaken k P Q none h c = absurd h
  Gives-weaken k P Q (some (a, ws)) h c = (c a h.0, h.1, h.2)

  -- A loop that accepts every good word takes one of the good words at most.
  pub draw_until-Gives {ℓ} :
      {A : Type ℓ} (k : ℕ) (P : A → Type 0) (accept : ℕ → Option A) (x : ℕ) (ws : List ℕ)
      → ((y : ℕ) (a : A) → IsU64 y → accept y ≡ some a → P a)
      → ((y : ℕ) → G y → IsFound (accept y))
      → IsU64 x
      → All IsU64 ws
      → Plenty G (suc k) (x ∷ ws)
      → Gives G k P (draw_until accept x ws)
  unfolding draw_until
  draw_until-Gives k P accept x [] good found hx hs live = elim (Option-cases (accept x)) [
    | inl e ↦ elim live [ inl g ↦ absurd (rw e at (found x g.0)) | inr b ↦ absurd b ]
    | inr (a, e) ↦ rw e (good x a hx e, tt, Plenty-past k x [] live)
  ]
  draw_until-Gives k P accept x (w ∷ ws) good found hx hs live = elim (Option-cases (accept x)) [
    | inl e ↦ rw e (
        draw_until-Gives k P accept w ws good found hs.0 hs.1
          (elim live [ inl g ↦ absurd (rw e at (found x g.0)) | inr b ↦ b ]))
    | inr (a, e) ↦ rw e (good x a hx e, hs, Plenty-past k x (w ∷ ws) live)
  ]
