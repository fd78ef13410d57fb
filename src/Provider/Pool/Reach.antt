-- ===== src/Provider/Pool/Reach.antt =====
-- What holds of a pool in every state that its users can bring about.
use randomizer.Base.{
  ℕ, suc, ◌+◌, ◌≤◌, ◌≡◌, refl, sym, ap, ◌∙◌, ◌⊎◌, inl, inr, Option, none, some, List, [], ◌∷◌, ◌++◌,
  arith, ◌==◌, if◌then◌else◌, get_elem?, set, set, All, Option-cases,
}
use randomizer.Provider.Pool.Counts.{
  count, one_if, count-remove, count-remove-le, count-set, IsEmpty, All-remove, All-at,
}
use randomizer.Provider.Pool.{Hash, reset, new_hash, remove, get, put, take_pooled}

-- A pool, the hashes that its users hold, and the number of objects made so far.
pub record Users : Type 0 where
  pub pooled : List Hash
  pub held : List Hash
  pub made : ℕ

abbrev pub held_at : Users → ℕ → Option Hash
held_at s i = get_elem? s.held i

-- A user gets a hash, writes to one that it holds or gives it back; the pool drops an object.
pub data Step : Users → Users → Type 0 where
  gets :
      (s : Users) (i seed : ℕ) (h : Hash) (left : List Hash)
      → get (some s.pooled) i (new_hash s.made seed) ≡ (h, some left)
      → Step s (record { pooled = left; held = h ∷ s.held; made = suc s.made })
  writes :
      (s : Users) (i : ℕ) (h : Hash) (bytes : List ℕ)
      → get_elem? s.held i ≡ some h
      → Step s (record {
        pooled = s.pooled;
        held =
            set s.held i
              (record { object = h.object; seed = h.seed; written = h.written ++ bytes });
        made = s.made;
      })
  puts :
      (s : Users) (i : ℕ) (h : Hash) (pooled : List Hash)
      → get_elem? s.held i ≡ some h
      → put (some s.pooled) (some h) ≡ some pooled
      → Step s (record { pooled = pooled; held = remove s.held i; made = s.made })
  drops :
      (s : Users) (i : ℕ)
      → Step s (record { pooled = remove s.pooled i; held = s.held; made = s.made })

pub data Reach (s : Users) : Users → Type 0 where
  here : Reach s s
  next : {t u : Users} → Reach s t → Step t u → Reach s u

-- Every pooled hash is empty, and no object is in two places or made anew.
pub record IsShared (s : Users) : Type 0 where
  pub clean : All (λ h. h.written ≡ []) s.pooled
  pub alone : (o : ℕ) → count o s.pooled + count o s.held ≤ 1
  pub fresh : (o : ℕ) → s.made ≤ o → count o s.pooled + count o s.held ≡ 0

take_pooled-none :
    (pooled : List Hash) (i : ℕ) (made : Hash)
    → get_elem? pooled i ≡ none
    → take_pooled pooled i made ≡ (made, pooled)
unfolding take_pooled
take_pooled-none pooled i made e =
    ap (λ o. elim o [ none ↦ (made, pooled) | some h ↦ (h, remove pooled i) ]) e

take_pooled-some :
    (pooled : List Hash) (i : ℕ) (made h : Hash)
    → get_elem? pooled i ≡ some h
    → take_pooled pooled i made ≡ (h, remove pooled i)
unfolding take_pooled
take_pooled-some pooled i made h e =
    ap (λ o. elim o [ none ↦ (made, pooled) | some g ↦ (g, remove pooled i) ]) e

-- A hash from the pool, or a new one.
Got-cases :
    (pooled : List Hash) (i : ℕ) (made : Hash)
    → (get (some pooled) i made ≡ (made, some pooled))
      ⊎ ((h : Hash) × (get_elem? pooled i ≡ some h)
          × (get (some pooled) i made ≡ (h, some (remove pooled i))))
unfolding get
Got-cases pooled i made = elim (Option-cases (get_elem? pooled i)) [
  | inl e ↦ inl (ap (λ p. (p.0, some p.1)) (take_pooled-none pooled i made e))
  | inr (h, e) ↦ inr (h, e, ap (λ p. (p.0, some p.1)) (take_pooled-some pooled i made h e))
]

one_if_self : (h : Hash) → one_if h.object h ≡ 1
unfolding one_if
one_if_self h = ground arith

-- What `Get` hands out is empty, and nobody holds it.
get_lem :
    (s : Users) (i seed : ℕ)
    → IsShared s
    → IsEmpty (get (some s.pooled) i (new_hash s.made seed)).0
      × (count (get (some s.pooled) i (new_hash s.made seed)).0.object s.held ≡ 0)
get_lem s i seed ok = elim (Got-cases s.pooled i (new_hash s.made seed)) [
  | inl e ↦ rw e (refl, omega (arith, ok.fresh s.made (omega arith)))
  | inr (h, at, e) ↦ rw e (
    All-at s.pooled i h ok.clean at,
    omega (arith, count-remove h.object s.pooled i h at, ok.alone h.object, one_if_self h),
  )
]

unfolded : (o : ℕ) (h : Hash) → one_if o h ≡ (if h.object == o then 1 else 0)
unfolding one_if
unfolded o h = refl

-- What a step of `Get` leaves, from the two cases of the hash.
gets-IsShared :
    (s : Users) (i seed : ℕ) (h : Hash) (left : List Hash)
    → IsShared s
    → get (some s.pooled) i (new_hash s.made seed) ≡ (h, some left)
    → IsShared (record { pooled = left; held = h ∷ s.held; made = suc s.made })
gets-IsShared s i seed h left ok e = elim (Got-cases s.pooled i (new_hash s.made seed)) [
  | inl made ↦
      let new : new_hash s.made seed ≡ h = ap (λ p. p.0) (sym made ∙ e) in
      let same : s.pooled ≡ left = cc (ap (λ p. p.1) (sym made ∙ e)) in
      rw (← new, ← same)
        (record {
          clean = ok.clean;
          alone = λ o. ground (arith, ok.alone o, ok.fresh o);
          fresh = λ o le. ground (arith, ok.fresh o);
        })
  | inr (g, at, took) ↦
      let new : g ≡ h = ap (λ p. p.0) (sym took ∙ e) in
      let same : remove s.pooled i ≡ left = cc (ap (λ p. p.1) (sym took ∙ e)) in
      rw (← new, ← same)
        (record {
          clean = All-remove s.pooled i ok.clean;
          alone = λ o. omega (arith, ok.alone o, unfolded o g, count-remove o s.pooled i g at);
          fresh = λ o le.
              omega (arith, ok.fresh o (omega arith), unfolded o g, count-remove o s.pooled i g at);
        })
]

put-some : (pooled : List Hash) (h : Hash) → put (some pooled) (some h) ≡ some (reset h ∷ pooled)
unfolding put
put-some pooled h = refl

Step-IsShared : {s t : Users} → Step s t → IsShared s → IsShared t
Step-IsShared (gets s i seed h left e) ok = gets-IsShared s i seed h left ok e
Step-IsShared (writes s i h bytes at) ok =
    let same = λ (o : ℕ).
      count-set o s.held i h
        (record { object = h.object; seed = h.seed; written = h.written ++ bytes }) at refl in
    record {
      clean = ok.clean;
      alone = λ o. omega (arith, ok.alone o, same o);
      fresh = λ o le. omega (arith, ok.fresh o le, same o);
    }
Step-IsShared (puts s i h pooled at e) ok =
    let same : reset h ∷ s.pooled ≡ pooled = cc (e, put-some s.pooled h) in
    rw (← same) (record {
      clean = (refl, ok.clean);
      alone = λ o. omega (arith, ok.alone o, unfolded o h, count-remove o s.held i h at);
      fresh = λ o le. omega (arith, ok.fresh o le, unfolded o h, count-remove o s.held i h at);
    })
Step-IsShared (drops s i) ok = record {
  clean = All-remove s.pooled i ok.clean;
  alone = λ o. omega (arith, ok.alone o, count-remove-le o s.pooled i);
  fresh = λ o le. omega (arith, ok.fresh o le, count-remove-le o s.pooled i);
}

Reach-IsShared : {s t : Users} → IsShared s → Reach s t → IsShared t
Reach-IsShared ok here = ok
Reach-IsShared ok (next r step) = Step-IsShared step (Reach-IsShared ok r)

abbrev pub no_hashes : Users
no_hashes = record { pooled = []; held = []; made = 0 }

-- However users get hashes, write to them and give them back, and whatever objects the pool picks,
-- makes and drops, from a new pool on: every pooled hash is empty, and Get hands out a hash that is
-- empty and that no user holds.
pub get-Reach :
    (t : Users) (i seed : ℕ)
    → Reach no_hashes t
    → All (λ h. h.written ≡ []) t.pooled
      × ((get (some t.pooled) i (new_hash t.made seed)).0.written ≡ [])
      × (count (get (some t.pooled) i (new_hash t.made seed)).0.object t.held ≡ 0)
get-Reach t i seed r =
    let ok =
      Reach-IsShared (record { clean = tt; alone = λ o. omega arith; fresh = λ o le. refl }) r in
    let (empty, nobody) = get_lem t i seed ok in (ok.clean, empty, nobody)
