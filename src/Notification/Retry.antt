-- ===== src/Notification/Retry.antt =====
-- internal/notification/retry.go and jitter.go: when a failed attempt is made again.
pub mod Bounds
use rc_pangjiahui.Prelude.{
  ℕ, zero, suc, ◌-◌, ℤ, pos, negsuc, ◌+ℤ◌, ◌-ℤ◌, leb_ℤ, ltb_ℤ, List, [], ◌∷◌, Option, none, some,
  ◌||◌, ltb, leb, ◌==◌, if◌then◌else◌, length,
}
use rc_pangjiahui.Notification.Model.{Time, Duration, RetryPolicy}

-- The bounds of time.Duration, an int64.
abbrev pub max_duration : Duration
max_duration = pos 9_223_372_036_854_775_807

abbrev pub min_duration : Duration
min_duration = negsuc 9_223_372_036_854_775_807

-- t.Sub(u), which stops at the bounds.
unfoldable pub time_sub : Time → Time → Duration
time_sub t u =
    let d = t -ℤ u in
    if ltb_ℤ max_duration d then max_duration else if ltb_ℤ d min_duration then min_duration else d

-- policy.Delays[i], where i is in range.
abbrev pub delay_at : List Duration → ℕ → Duration
delay_at [] i = pos 0
delay_at (d ∷ ds) zero = d
delay_at (d ∷ ds) (suc i) = delay_at ds i

abbrev pub jittered : Option (Duration → Duration) → Duration → Duration
jittered none delay = delay
jittered (some apply) delay = apply delay

-- The delay after the given attempt, from the table and before any jitter.
unfoldable pub configured_delay : List Duration → ℕ → Duration
configured_delay delays attempt =
    delay_at delays (if leb (length delays) (attempt - 1) then length delays - 1 else attempt - 1)

-- The second half of NextAttempt: the configured delay.
unfoldable pub by_delay : RetryPolicy → ℕ → Time → Option (Duration → Duration) → Option Time
unfolding configured_delay
by_delay policy attempt now jitter =
    let delay = jittered jitter (configured_delay policy.delays attempt) in
    if ltb_ℤ delay (pos 0) || ltb_ℤ policy.lifetime delay then none else some (now +ℤ delay)

unfoldable pub next_attempt :
    RetryPolicy → ℕ → Option Time → Time → Option (Duration → Duration) → Option Time
unfolding time_sub
next_attempt policy attempt retry_after now jitter =
    if leb policy.max_attempts attempt || attempt == 0 || length policy.delays == 0
    then none
    else elim retry_after [
      | none ↦ by_delay policy attempt now jitter
      | some at ↦
          if ltb_ℤ now at
          then (if ltb_ℤ policy.lifetime (time_sub at now) then none else some at)
          else by_delay policy attempt now jitter
    ]

-- BoundedJitter.Apply. `scale` stands for the product with the random factor, converted back to a
-- duration.
unfoldable pub apply_jitter : (Duration → Duration) → Duration → Duration
apply_jitter scale delay =
    if leb_ℤ delay (pos 0)
    then delay
    else let result = scale delay in if ltb_ℤ result (pos 1) then pos 1 else result
