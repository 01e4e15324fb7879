-- ===== src/Delivery/Service.antt =====
-- internal/delivery/service.go. What the service takes from outside, its lease token, the readings
-- of its clock, the limiter's answer and the supplier's, is in the record `Surroundings`.
pub mod Postgres
pub mod Attempt
pub mod Cases
pub mod Effects
pub mod Records
pub mod Lifted
use rc_pangjiahui.Prelude.{ℕ, String, Bool, not, ◌+ℤ◌, Option, none, some, if◌then◌else◌}
use rc_pangjiahui.Notification.Model.{
  Time, Duration, Outcome, retryable, permanent, DeliverySnapshot, Task, AttemptResult, Claim,
}
use rc_pangjiahui.Notification.Retry.{next_attempt}
use rc_pangjiahui.Store.Tables.{Fallible, ok, err}

pub record Message : Type 0 where
  pub event_id : String
  pub notification_id : String

pub data Disposition : Type 0 where
  ack requeue reject : Disposition

-- The methods of Repository over a state `S`.
pub record Repository (S : Type 0) : Type 0 where
  pub claim_delivery : String → String → Time → S → S × Fallible Claim
  pub apply_delivery_result : String → String → AttemptResult → S → S × Fallible Bool

-- delivery.Result
pub record SendResult : Type 0 where
  pub outcome : Outcome
  pub http_status : ℕ
  pub error_code : String
  pub error_message : String
  pub retry_after : Option Time

pub record Surroundings : Type 0 where
  pub lease : String
  pub now : Time
  pub acquires : String → ℕ → Bool
  pub send : DeliverySnapshot → SendResult
  pub completed_at : Time
  pub jitter : Option (Duration → Duration)
  pub lease_ttl : Duration

-- What Handle returns, with the call of the supplier that it made and the outcome it observed.
pub record Handled : Type 0 where
  pub disposition : Disposition
  pub sent : Option DeliverySnapshot
  pub observed : Option String

abbrev pub unsent : Disposition → Handled
unsent d = record { disposition = d; sent = none; observed = none }

-- The result that is recorded: a retry has its time, and one that has none is permanent.
unfoldable pub attempt_of : Surroundings → Task → SendResult → AttemptResult
attempt_of env task result =
    let attempt : AttemptResult = record {
      outcome = result.outcome;
      http_status = result.http_status;
      error_code = result.error_code;
      error_message = result.error_message;
      next_attempt_at = none;
      completed_at = env.completed_at;
    } in
    elim result.outcome [
      | retryable ↦
          elim (next_attempt task.snapshot.retry task.attempt_count result.retry_after
            env.completed_at env.jitter) [
              | some next ↦ record attempt { next_attempt_at = some next }
              | none ↦ record attempt { outcome = permanent }
            ]
      | _ ↦ attempt
    ]

-- string(attempt.Outcome), with "dead" for permanent.
abbrev pub outcome_label : Outcome → String
outcome_label Outcome.delivered = "delivered"
outcome_label retryable = "retryable"
outcome_label permanent = "dead"

module _ {S : Type 0} (repository : Repository S) where
  -- Handle after a claim that was acquired.
  unfoldable pub deliver : Surroundings → Message → Task → S → S × Handled
  deliver env message task s =
      if not (env.acquires task.snapshot.destination_id task.snapshot.concurrency_limit)
      then (s, unsent requeue)
      else let attempt = attempt_of env task (env.send task.snapshot) in
        let (s', applied) =
          repository.apply_delivery_result message.notification_id env.lease attempt s in
        elim applied [
          | err e ↦
              (s', record { disposition = requeue; sent = some task.snapshot; observed = none })
          | ok done ↦ (
            s',
            record {
              disposition = ack;
              sent = some task.snapshot;
              observed = if done then some (outcome_label attempt.outcome) else none;
            },
          )
        ]

  unfoldable pub handle : Surroundings → Message → S → S × Handled
  unfolding deliver
  handle env message s =
      let (s', claimed) =
        repository.claim_delivery message.notification_id env.lease (env.now +ℤ env.lease_ttl) s in
      elim claimed [
        | err e ↦ (s', unsent requeue)
        | ok claim ↦
            if not claim.acquired then (s', unsent ack) else deliver env message claim.task s'
      ]
