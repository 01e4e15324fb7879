-- ===== src/Delivery/Limiter/Capacity.antt =====
-- How many calls of a destination the limiter lets run at once.
use rc_pangjiahui.Prelude.{
  ℕ, ◌+◌, ◌-◌, ◌≤◌, ◌<◌, String, Bool, ◌≡◌, ◌≢◌, ◌⊎◌, ◌||◌, refl, Option, none, some, [], ◌∷◌, ◌=ₛ◌,
  eq_iff, ltb, if◌then◌else◌, arith, Option-cases, Bool-cases, inl, inr,
}
use rc_pangjiahui.Delivery.Limiter.{
  DestinationCapacity, Limiter, lookup, store, notify, observe, refused, acquired, waits, acquire,
  release,
}

pub lookup-store :
    (id j : String) (c : DestinationCapacity) (l : Limiter)
    → lookup j (store id c l) ≡ (if id =ₛ j then some c else lookup j l)
unfolding lookup store
lookup-store id j c [] = refl
lookup-store id j c ((k, d) ∷ rest) =
    ground (arith, eq_iff id j, eq_iff k id, eq_iff k j, lookup-store id j c rest)

abbrev pub active_in : Option DestinationCapacity → ℕ
active_in none = 0
active_in (some c) = c.active

-- The calls of a destination that run.
abbrev pub active : String → Limiter → ℕ
active id l = active_in (lookup id l)

-- The limit in force for a destination is at most `n`.
abbrev pub LimitWithin : Option DestinationCapacity → ℕ → Type 0
LimitWithin none n = ⊥
LimitWithin (some c) n = c.limit ≤ n

abbrev pub LimitedBy : String → ℕ → Limiter → Type 0
LimitedBy id n l = LimitWithin (lookup id l) n

-- The turn that acquires, by what it stores.
acquire-cases :
    (cancelled : Bool) (id : String) (limit : ℕ) (l : Limiter)
    → let c = observe limit (lookup id l) in
      ((acquire cancelled id limit l ≡ (store id (record c { active = c.active + 1 }) l, acquired))
        × (c.active < c.limit))
      ⊎ (((acquire cancelled id limit l ≡ (store id c l, waits)) × (c.limit ≤ c.active))
          ⊎ (acquire cancelled id limit l ≡ (l, refused)))
unfolding acquire
acquire-cases cancelled id limit l = elim (Bool-cases (id =ₛ "" || ltb limit 1)) [
  | inl bad ↦ inr (inr (rw bad))
  | inr good ↦ elim (Bool-cases cancelled) [
    | inl stop ↦ inr (inr (simp (good, stop)))
    | inr go ↦
        elim (Bool-cases
          (ltb (observe limit (lookup id l)).active (observe limit (lookup id l)).limit)) [
            | inl room ↦ inl (simp (good, go, room), ground (arith, room))
            | inr full ↦ inr (inl (simp (good, go, full), ground (arith, full)))
          ]
  ]
]

observe-active :
    (limit : ℕ) (o : Option DestinationCapacity) → (observe limit o).active ≡ active_in o
unfolding observe
observe-active limit none = refl
observe-active limit (some c) = ground arith

observe-limit :
    (limit n : ℕ) (o : Option DestinationCapacity)
    → ((observe limit o).limit ≤ limit) × (LimitWithin o n → (observe limit o).limit ≤ n)
unfolding observe
observe-limit limit n none = (omega arith, λ h. absurd h)
observe-limit limit n (some c) = (ground arith, λ h. ground arith)

lookup-store_self :
    (id : String) (c : DestinationCapacity) (l : Limiter) → lookup id (store id c l) ≡ some c
lookup-store_self id c l = ground (arith, lookup-store id id c l, eq_iff id id)

lookup-store_other :
    (id j : String) (c : DestinationCapacity) (l : Limiter)
    → j ≢ id
    → lookup j (store id c l) ≡ lookup j l
lookup-store_other id j c l h = ground (arith, lookup-store id j c l, eq_iff id j, h)

-- A turn that acquires adds one running call of its destination, within the limit that it asked
-- for and every limit that was in force, and leaves the other destinations alone.
pub acquire-acquired :
    (cancelled : Bool) (id : String) (limit : ℕ) (l : Limiter)
    → (acquire cancelled id limit l).1 ≡ acquired
    → let l' = (acquire cancelled id limit l).0 in
      (active id l' ≡ active id l + 1)
      × (active id l' ≤ limit)
      × LimitedBy id limit l'
      × ((n : ℕ) → LimitedBy id n l → (active id l' ≤ n) × LimitedBy id n l')
      × ((j : String) → j ≢ id → lookup j l' ≡ lookup j l)
acquire-acquired cancelled id limit l e = elim (acquire-cases cancelled id limit l) [
  | inr (inl (w, _)) ↦ absurd (ground (arith, e, w))
  | inr (inr r) ↦ absurd (ground (arith, e, r))
  | inl (a, room) ↦
      let c = observe limit (lookup id l) in
      let full = record c { active = c.active + 1 } in
      let same = observe-active limit (lookup id l) in
      let low = observe-limit limit limit (lookup id l) in
      rw (a, lookup-store_self id full l)
        (
          omega (arith, same),
          omega (arith, low, room),
          low.0,
          λ n h. (
            omega (arith, (observe-limit limit n (lookup id l)).1 h, room),
            (observe-limit limit n (lookup id l)).1 h,
          ),
          λ j apart. lookup-store_other id j full l apart,
        )
]

-- A turn that does not acquire leaves every destination's running calls as they are.
pub acquire-not_acquired :
    (cancelled : Bool) (id : String) (limit : ℕ) (l : Limiter)
    → (acquire cancelled id limit l).1 ≢ acquired
    → (j : String) → active j (acquire cancelled id limit l).0 ≡ active j l
acquire-not_acquired cancelled id limit l h j = elim (acquire-cases cancelled id limit l) [
  | inl (a, room) ↦ absurd (h (rw a))
  | inr (inr r) ↦ rw r
  | inr (inl (w, _)) ↦
      rw (w, lookup-store id j (observe limit (lookup id l)) l)
        (ground (arith, eq_iff id j, observe-active limit (lookup id l)))
]

-- A release gives one running call of its destination back, and touches no other.
pub release-active :
    (id j : String) (l : Limiter)
    → active j (release id l) ≡ (if id =ₛ j then active j l - 1 else active j l)
unfolding release
release-active id j l = elim (Option-cases (lookup id l)) [
  | inl missing ↦ rw (missing, release) (ground (arith, missing, eq_iff id j))
  | inr (c, found) ↦
      rw (found, release, lookup-store id j (notify (record c { active = c.active - 1 })) l)
        (ground (arith, found, eq_iff id j))
]
