-- ===== src/Delivery/Sender/RetryAfter.antt =====
-- parseRetryAfter of internal/delivery/http_sender.go, with the next attempt that comes of it.
use rc_pangjiahui.Prelude.{
  ℕ, ◌-◌, ◌*◌, ◌≤◌, ◌<◌, String, ◌≡◌, refl, pos, negsuc, ◌+ℤ◌, ◌<ℤ◌, ◌≤ℤ◌, +ℤ_parts, Option, some,
  none, arith, ◌∙◌, ap, length,
}
use rc_pangjiahui.Text.{trim_space}
use rc_pangjiahui.Notification.Model.{Time, Duration, RetryPolicy}
use rc_pangjiahui.Notification.Retry.{next_attempt, max_duration}
use rc_pangjiahui.Notification.Retry.Bounds.{next_attempt_retry_after, next_attempt-past}
use rc_pangjiahui.Delivery.Sender.{parse_retry_after}
use rc_pangjiahui.Delivery.Exchange.{Network}
use rc_pangjiahui.Delivery.Reading.{atoi, wrap64, seconds_duration}

wrap64-small : (n : ℕ) → n < 9_223_372_036_854_775_808 → wrap64 n ≡ pos n
unfolding wrap64
wrap64-small n h = ground arith

-- A product whose highest bit is set is read as a negative number.
wrap64-high :
    (n : ℕ)
    → 9_223_372_036_854_775_808 ≤ n
    → n < 18_446_744_073_709_551_616
    → wrap64 n ≡ negsuc (18_446_744_073_709_551_615 - n)
unfolding wrap64
wrap64-high n lo hi = ground arith

parse_seconds :
    (net : Network) (value : String) (now : Time) (n : ℕ)
    → atoi (trim_space value) ≡ some (pos n)
    → parse_retry_after net value now ≡ some (now +ℤ seconds_duration n)
unfolding parse_retry_after
parse_seconds net value now n h = rw (h, parse_retry_after) refl

-- A number of seconds that fits a duration, up to 292 years, is added to the time of the answer; and
-- if that lies within the lifetime, it is the time of the next attempt.
pub retry_after_seconds :
    (net : Network) (value : String) (now : Time) (n : ℕ) (p : RetryPolicy) (attempt : ℕ)
    (jitter : Option (Duration → Duration))
    → atoi (trim_space value) ≡ some (pos n)
    → 0 < n
    → n ≤ 9_223_372_036
    → 0 < attempt
    → attempt < p.max_attempts
    → 0 < length p.delays
    → p.lifetime <ℤ max_duration
    → pos (n * 1_000_000_000) ≤ℤ p.lifetime
    → (parse_retry_after net value now ≡ some (now +ℤ pos (n * 1_000_000_000)))
      × (next_attempt p attempt (parse_retry_after net value now) now jitter
          ≡ some (now +ℤ pos (n * 1_000_000_000)))
retry_after_seconds net value now n p attempt jitter read some_time fits lo hi delays lt within =
    let at = now +ℤ pos (n * 1_000_000_000) in
    let parsed : parse_retry_after net value now ≡ some at =
      parse_seconds net value now n read
      ∙ ap (λ d. some (now +ℤ d)) (wrap64-small (n * 1_000_000_000) (omega arith)) in
    (
      parsed,
      ap (λ x. next_attempt p attempt x now jitter) parsed
          ∙ next_attempt_retry_after p attempt at now jitter lo hi delays lt
              (omega (arith, +ℤ_parts now (pos (n * 1_000_000_000))))
              (omega (arith, +ℤ_parts now (pos (n * 1_000_000_000)), +ℤ_parts now p.lifetime)),
    )

-- A number of seconds between 292 and 584 years is read as a time before the answer, so that the
-- next attempt follows the table of delays, as without the header, although the supplier asks for a
-- time beyond every lifetime.
pub retry_after_overflow :
    (net : Network) (value : String) (now : Time) (n : ℕ) (p : RetryPolicy) (attempt : ℕ)
    (jitter : Option (Duration → Duration))
    → atoi (trim_space value) ≡ some (pos n)
    → 9_223_372_037 ≤ n
    → n ≤ 18_446_744_073
    → ((at : Time) × (parse_retry_after net value now ≡ some at) × (at <ℤ now))
      × (next_attempt p attempt (parse_retry_after net value now) now jitter
          ≡ next_attempt p attempt none now jitter)
retry_after_overflow net value now n p attempt jitter read lo hi =
    let m = 18_446_744_073_709_551_615 - n * 1_000_000_000 in
    let at = now +ℤ negsuc m in
    let parsed : parse_retry_after net value now ≡ some at =
      parse_seconds net value now n read
      ∙ ap (λ d. some (now +ℤ d)) (wrap64-high (n * 1_000_000_000) (omega arith) (omega arith)) in
    let early : at <ℤ now = omega (arith, +ℤ_parts now (negsuc m)) in
    (
      (at, parsed, early),
      ap (λ x. next_attempt p attempt x now jitter) parsed
          ∙ next_attempt-past p attempt at now jitter early,
    )
