-- ===== src/Delivery/Service/Attempt.antt =====
-- The result that a handling records: when a retry is asked for, and for what time.
use rc_pangjiahui.Prelude.{◌<◌, ◌≡◌, inl, inr, ◌+ℤ◌, ◌≤ℤ◌, ◌<ℤ◌, none, some, arith, Option-cases}
use rc_pangjiahui.Notification.Model.{Time, Outcome, retryable, permanent, Task}
use rc_pangjiahui.Notification.Retry.{max_duration, next_attempt}
use rc_pangjiahui.Notification.Retry.Bounds.{next_attempt_window}
use rc_pangjiahui.Store.Shape.{IsComplete}
use rc_pangjiahui.Delivery.Service.{Surroundings, SendResult, attempt_of}

-- A recorded retry has its time.
pub attempt_of-IsComplete :
    (env : Surroundings) (task : Task) (result : SendResult)
    → IsComplete (attempt_of env task result)
unfolding attempt_of
attempt_of-IsComplete env task result h = ground arith

-- A retryable answer is recorded as a retry if there is a next attempt, and as permanent otherwise.
pub attempt_of-again :
    (env : Surroundings) (task : Task) (result : SendResult) {next : Time}
    → result.outcome ≡ retryable
    → next_attempt task.snapshot.retry task.attempt_count result.retry_after env.completed_at
        env.jitter
      ≡ some next
    → (attempt_of env task result).outcome ≡ retryable
unfolding attempt_of
attempt_of-again env task result h found = ground (arith, h, found)

pub attempt_of-over :
    (env : Surroundings) (task : Task) (result : SendResult)
    → result.outcome ≡ retryable
    → next_attempt task.snapshot.retry task.attempt_count result.retry_after env.completed_at
        env.jitter
      ≡ none
    → (attempt_of env task result).outcome ≡ permanent
unfolding attempt_of
attempt_of-over env task result h never = ground (arith, h, never)

-- Of an answer the texts are recorded as they are.
pub attempt_of-texts :
    (env : Surroundings) (task : Task) (result : SendResult)
    → ((attempt_of env task result).error_code ≡ result.error_code)
      × ((attempt_of env task result).error_message ≡ result.error_message)
unfolding attempt_of
attempt_of-texts env task result = (ground arith, ground arith)

-- A delivery is recorded only for an answer that is one.
pub attempt_of-delivered :
    (env : Surroundings) (task : Task) (result : SendResult)
    → (attempt_of env task result).outcome ≡ Outcome.delivered
    → result.outcome ≡ Outcome.delivered
unfolding attempt_of
attempt_of-delivered env task result h =
    elim (Option-cases (
      next_attempt task.snapshot.retry task.attempt_count result.retry_after env.completed_at
        env.jitter)) [
          | inl never ↦ ground (arith, h, never)
          | inr (next, found) ↦ ground (arith, h, found)
        ]

-- A retry is recorded only for a retryable answer, while attempts are left, and for a time between
-- the end of the attempt and the lifetime after it.
pub attempt_of-retryable :
    (env : Surroundings) (task : Task) (result : SendResult)
    → task.snapshot.retry.lifetime <ℤ max_duration
    → (attempt_of env task result).outcome ≡ retryable
    → (result.outcome ≡ retryable)
      × (0 < task.attempt_count)
      × (task.attempt_count < task.snapshot.retry.max_attempts)
      × ((next : Time) × ((attempt_of env task result).next_attempt_at ≡ some next)
          × (env.completed_at ≤ℤ next)
          × (next ≤ℤ env.completed_at +ℤ task.snapshot.retry.lifetime))
unfolding attempt_of
attempt_of-retryable env task result lt h =
    elim (Option-cases (
      next_attempt task.snapshot.retry task.attempt_count result.retry_after env.completed_at
        env.jitter)) [
          | inl never ↦ absurd (ground (arith, h, never))
          | inr (next, found) ↦
              let w =
                next_attempt_window task.snapshot.retry task.attempt_count result.retry_after
                  env.completed_at env.jitter lt found in
              (ground (arith, h), w.0, w.1, (next, ground (arith, h, found), w.2, w.3))
        ]
