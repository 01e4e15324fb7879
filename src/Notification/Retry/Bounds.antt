-- ===== src/Notification/Retry/Bounds.antt =====
-- Where the next attempt of NextAttempt lies, and when there is none.
use rc_pangjiahui.Prelude.{
  ℕ, zero, suc, ◌+◌, ◌-◌, ◌*◌, ◌≤◌, ◌<◌, ◌≡◌, refl, pos, ◌+ℤ◌, ◌≤ℤ◌, ◌<ℤ◌, ltb_ℤ, List, [], ◌∷◌,
  Option, none, some, false, arith, leb, length, All, +ℤ_parts, -ℤ_parts, if◌then◌else◌,
}
use rc_pangjiahui.Notification.Model.{Time, Duration, RetryPolicy}
use rc_pangjiahui.Notification.Retry.{
  max_duration, time_sub, delay_at, jittered, configured_delay, by_delay, next_attempt,
  apply_jitter,
}

by_delay_window :
    (p : RetryPolicy) (attempt : ℕ) (now : Time) (jitter : Option (Duration → Duration)) {t : Time}
    → by_delay p attempt now jitter ≡ some t
    → (now ≤ℤ t) × (t ≤ℤ now +ℤ p.lifetime)
unfolding by_delay
by_delay_window p attempt now jitter h =
    let delay = jittered jitter (configured_delay p.delays attempt) in
    ground (arith, +ℤ_parts now delay, +ℤ_parts now p.lifetime)

retry_after_window :
    (p : RetryPolicy) (now at : Time)
    → p.lifetime <ℤ max_duration
    → ltb_ℤ p.lifetime (time_sub at now) ≡ false
    → at ≤ℤ now +ℤ p.lifetime
unfolding time_sub
retry_after_window p now at h e = ground (arith, -ℤ_parts at now, +ℤ_parts now p.lifetime)

-- An attempt is made again only while attempts are left, and then not before now and not later
-- than the lifetime from now, if the lifetime is below the greatest duration.
pub next_attempt_window :
    (p : RetryPolicy) (attempt : ℕ) (retry_after : Option Time) (now : Time)
    (jitter : Option (Duration → Duration)) {t : Time}
    → p.lifetime <ℤ max_duration
    → next_attempt p attempt retry_after now jitter ≡ some t
    → (0 < attempt) × (attempt < p.max_attempts) × (now ≤ℤ t) × (t ≤ℤ now +ℤ p.lifetime)
unfolding next_attempt
next_attempt_window p attempt none now jitter {t} lt h =
    let w = by_delay_window p attempt now jitter {t = t} in ground (arith, w)
next_attempt_window p attempt (some at) now jitter {t} lt h =
    let w = by_delay_window p attempt now jitter {t = t} in
    ground (arith, w, retry_after_window p now at lt)

-- A policy whose delays lie between 1ns and the lifetime, as the configuration wants them.
abbrev pub IsUsable : RetryPolicy → Type 0
IsUsable p = All (λ d. (pos 0 <ℤ d) × (d ≤ℤ p.lifetime)) p.delays × (0 < length p.delays)

delay_at-mem :
    (lifetime : Duration) (ds : List Duration) (i : ℕ)
    → All (λ d. (pos 0 <ℤ d) × (d ≤ℤ lifetime)) ds
    → i < length ds
    → (pos 0 <ℤ delay_at ds i) × (delay_at ds i ≤ℤ lifetime)
delay_at-mem lifetime [] i h lt = absurd (omega arith)
delay_at-mem lifetime (d ∷ ds) zero h lt = h.0
delay_at-mem lifetime (d ∷ ds) (suc i) h lt = delay_at-mem lifetime ds i h.1 (omega arith)

configured_delay_usable :
    (p : RetryPolicy) (attempt : ℕ)
    → IsUsable p
    → (pos 0 <ℤ configured_delay p.delays attempt)
      × (configured_delay p.delays attempt ≤ℤ p.lifetime)
unfolding configured_delay
configured_delay_usable p attempt u =
    delay_at-mem p.lifetime p.delays
      (if leb (length p.delays) (attempt - 1) then length p.delays - 1 else attempt - 1) u.0
      (ground arith)

-- With a usable policy, attempts left, no jitter and no Retry-After that lies in the future, the
-- next attempt is one delay from now: the n-th delay after the n-th attempt, and the last one
-- after all later attempts.
pub next_attempt_by_table :
    (p : RetryPolicy) (attempt : ℕ) (retry_after : Option Time) (now : Time)
    → IsUsable p
    → 0 < attempt
    → attempt < p.max_attempts
    → ((at : Time) → retry_after ≡ some at → at ≤ℤ now)
    → next_attempt p attempt retry_after now none
      ≡ some (
          now
          +ℤ (if leb (length p.delays) (attempt - 1)
              then delay_at p.delays (length p.delays - 1)
              else delay_at p.delays (attempt - 1)))
unfolding next_attempt by_delay configured_delay
next_attempt_by_table p attempt none now u lo hi past =
    ground (arith, configured_delay_usable p attempt u)
next_attempt_by_table p attempt (some at) now u lo hi past =
    ground (arith, configured_delay_usable p attempt u, past at refl)

-- A Retry-After in the future and within the lifetime from now is the next attempt, whatever the
-- delays and the jitter are.
pub next_attempt_retry_after :
    (p : RetryPolicy) (attempt : ℕ) (at now : Time) (jitter : Option (Duration → Duration))
    → 0 < attempt
    → attempt < p.max_attempts
    → 0 < length p.delays
    → p.lifetime <ℤ max_duration
    → now <ℤ at
    → at ≤ℤ now +ℤ p.lifetime
    → next_attempt p attempt (some at) now jitter ≡ some at
unfolding next_attempt
next_attempt_retry_after p attempt at now jitter lo hi some_delay lt later h =
    let d = -ℤ_parts at now in let e = +ℤ_parts now p.lifetime in ground (arith, d, e)

-- The jitter keeps a positive delay positive and within a fifth of it, if the product of a
-- positive delay with the random factor, cut off below a nanosecond, is within a fifth of it.
pub apply_jitter_bounds :
    (scale : Duration → Duration) (n m : ℕ)
    → 0 < n
    → scale (pos n) ≡ pos m
    → 4 * n ≤ 5 * m + 5
    → 5 * m ≤ 6 * n
    → (k : ℕ) × (apply_jitter scale (pos n) ≡ pos k)
      × (0 < k)
      × (4 * n ≤ 5 * k + 5)
      × (5 * k ≤ 6 * n)
unfolding apply_jitter
apply_jitter_bounds scale n zero h e lo hi =
    (1, ground arith, omega arith, omega arith, omega arith)
apply_jitter_bounds scale n (suc m) h e lo hi =
    (suc m, ground arith, omega arith, omega arith, omega arith)

-- A delay that the jitter lifts above the lifetime ends the attempts, also where the configured
-- delay is within the lifetime and attempts are left: the task is not delayed by the lifetime.
pub next_attempt_lifted :
    (p : RetryPolicy) (attempt : ℕ) (now : Time) (apply : Duration → Duration)
    → p.lifetime <ℤ apply (configured_delay p.delays attempt)
    → next_attempt p attempt none now (some apply) ≡ none
unfolding next_attempt by_delay
next_attempt_lifted p attempt now apply h = ground arith

-- A Retry-After that does not lie in the future counts for nothing.
pub next_attempt-past :
    (p : RetryPolicy) (attempt : ℕ) (at now : Time) (jitter : Option (Duration → Duration))
    → at <ℤ now
    → next_attempt p attempt (some at) now jitter ≡ next_attempt p attempt none now jitter
unfolding next_attempt
next_attempt-past p attempt at now jitter h = ground arith
