-- ===== src/Delivery/Limiter.antt =====
-- internal/delivery/limiter.go: the state under the mutex, and the turns of Acquire and release.
-- The destinations are a list of pairs. A change of `changed` wakes every waiter, which then takes
-- its turn again, so that the wait itself has no state here.
pub mod Capacity
pub mod Schedule
use rc_pangjiahui.Prelude.{
  ℕ, ◌+◌, ◌-◌, String, Bool, ◌||◌, Option, none, some, List, [], ◌∷◌, ◌=ₛ◌, ltb, if◌then◌else◌,
}

-- destinationCapacity; `notified` counts the calls of notify.
pub record DestinationCapacity : Type 0 where
  pub limit : ℕ
  pub active : ℕ
  pub notified : ℕ

abbrev pub Limiter : Type 0
Limiter = List (String × DestinationCapacity)

-- limiter.destinations[id]
unfoldable pub lookup : String → Limiter → Option DestinationCapacity
lookup id [] = none
lookup id ((k, c) ∷ rest) = if k =ₛ id then some c else lookup id rest

-- limiter.destinations[id] = c
unfoldable pub store : String → DestinationCapacity → Limiter → Limiter
store id c [] = (id, c) ∷ []
store id c ((k, d) ∷ rest) = if k =ₛ id then (k, c) ∷ rest else (k, d) ∷ store id c rest

abbrev pub notify : DestinationCapacity → DestinationCapacity
notify c = record c { notified = c.notified + 1 }

-- The capacity that a turn of Acquire finds, made at the first call and lowered by a smaller limit.
unfoldable pub observe : ℕ → Option DestinationCapacity → DestinationCapacity
observe limit none = record { limit = limit; active = 0; notified = 0 }
observe limit (some c) = if ltb limit c.limit then notify (record c { limit = limit }) else c

-- What a turn of the loop comes to.
pub data Turn : Type 0 where
  refused acquired waits : Turn

-- One turn of Acquire; `cancelled` says whether the context has an error.
unfoldable pub acquire : Bool → String → ℕ → Limiter → Limiter × Turn
unfolding observe
acquire cancelled id limit l =
    if id =ₛ "" || ltb limit 1
    then (l, refused)
    else if cancelled
    then (l, refused)
    else let c = observe limit (lookup id l) in
      if ltb c.active c.limit
      then (store id (record c { active = c.active + 1 }) l, acquired)
      else (store id c l, waits)

-- The function that Acquire returns, at its first call. Later calls do nothing (sync.Once).
unfoldable pub release : String → Limiter → Limiter
release id l = elim (lookup id l) [
  | none ↦ l
  | some c ↦ store id (notify (record c { active = c.active - 1 })) l
]
