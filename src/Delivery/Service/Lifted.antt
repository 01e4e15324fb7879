-- ===== src/Delivery/Service/Lifted.antt =====
-- What becomes of a task when the jitter of internal/notification/jitter.go lifts a delay above the
-- lifetime.
use rc_pangjiahui.Prelude.{
  ◌+◌, ◌≤◌, ◌<◌, String, Bool, true, ◌&&◌, ◌≡◌, ◌=ₛ◌, ◌+ℤ◌, ◌<ℤ◌, subst, sym, none, some, arith,
  any_where, find_where,
}
use Prim.Native.String.{count}
use rc_pangjiahui.Prelude.RowLaws.{All-find}
use rc_pangjiahui.Prelude.RowSearch.{any_where-reached}
use rc_pangjiahui.Notification.Model.{
  Time, Duration, retryable, permanent, retry_wait, same_status, AttemptResult,
}
use rc_pangjiahui.Notification.Retry.{configured_delay, apply_jitter, next_attempt}
use rc_pangjiahui.Notification.Retry.Bounds.{IsUsable, next_attempt_by_table, next_attempt_lifted}
use rc_pangjiahui.Store.Tables.{TaskRow, Db}
use rc_pangjiahui.Store.Query.{is_dead}
use rc_pangjiahui.Store.Delivery.{
  is_pending, claim_row, snapshot_of, claimed_task, result_row, result_checks,
}
use rc_pangjiahui.Store.Invariant.{Inv}
use rc_pangjiahui.Delivery.Service.{Message, Surroundings, SendResult, attempt_of, handle}
use rc_pangjiahui.Delivery.Service.Attempt.{attempt_of-again, attempt_of-over, attempt_of-texts}
use rc_pangjiahui.Delivery.Service.Postgres.{repository}
use rc_pangjiahui.Delivery.Service.Records.{all_answered, handle_records}

abbrev pub is_waiting : String → TaskRow → Bool
is_waiting id r = r.id =ₛ id && same_status r.status retry_wait

-- The texts of an answer fit the columns.
abbrev pub IsShort : SendResult → Type 0
IsShort result = (count result.error_code ≤ 128) × (count result.error_message ≤ 1024)

short_checks :
    (attempt : AttemptResult) (result : SendResult)
    → (attempt.error_code ≡ result.error_code) × (attempt.error_message ≡ result.error_message)
    → IsShort result
    → result_checks attempt ≡ true
unfolding result_checks
short_checks attempt result same fits = rw (same.0, same.1) (ground (arith, fits))

-- The same worker with another jitter.
abbrev pub with_jitter : (Duration → Duration) → Surroundings → Surroundings
with_jitter apply env = record env { jitter = some apply }

abbrev pub without_jitter : Surroundings → Surroundings
without_jitter env = record env { jitter = none }

-- The result that the worker records for a task of the table.
abbrev attempt_for : Time → Surroundings → TaskRow → AttemptResult
attempt_for clock env r =
    let until = env.now +ℤ env.lease_ttl in
    attempt_of env (claimed_task env.lease until (claim_row clock env.lease until r))
      (env.send (snapshot_of r))

recorded :
    (clock : Time) (env : Surroundings) (message : Message) (db : Db) (r : TaskRow)
    (q : TaskRow → Bool)
    → Inv db
    → find_where (is_pending message.notification_id) db.tasks ≡ some r
    → env.acquires r.request.destination_id r.request.concurrency_limit ≡ true
    → IsShort (env.send (snapshot_of r))
    → ((x : TaskRow)
        → is_pending message.notification_id x ≡ true
        → q (
            result_row
              (attempt_for clock env r)
              (claim_row clock env.lease (env.now +ℤ env.lease_ttl) x))
          ≡ true)
    → any_where q (handle (repository (all_answered clock)) env message db).0.tasks ≡ true
recorded clock env message db r q inv found free fits reached =
    let until = env.now +ℤ env.lease_ttl in
    let id = message.notification_id in
    let attempt = attempt_for clock env r in
    let task = claimed_task env.lease until (claim_row clock env.lease until r) in
    let result = env.send (snapshot_of r) in
    let done =
      handle_records clock env message db r inv found free
        (short_checks attempt result (attempt_of-texts env task result) fits) in
    subst (λ t. any_where q t.0.tasks ≡ true) (sym done)
      (any_where-reached (is_pending id) q
        (λ x. result_row attempt (claim_row clock env.lease until x)) reached db.tasks
        (All-find (is_pending id) db.tasks found))

-- On tables that satisfy the invariant, whose calls the server and the limiter answer, a pending task
-- has attempts left and delays within its lifetime, and the supplier's answer asks for a retry, names
-- no time and fits its columns. If the jitter lifts the delay above the lifetime, the worker records
-- the task as dead; without the jitter it records it as waiting for its retry.
pub handle_lifted :
    (clock : Time) (env : Surroundings) (scale : Duration → Duration) (message : Message) (db : Db)
    (r : TaskRow)
    → Inv db
    → find_where (is_pending message.notification_id) db.tasks ≡ some r
    → env.acquires r.request.destination_id r.request.concurrency_limit ≡ true
    → IsShort (env.send (snapshot_of r))
    → (env.send (snapshot_of r)).outcome ≡ retryable
    → (env.send (snapshot_of r)).retry_after ≡ none
    → IsUsable r.request.retry
    → r.attempt_count + 1 < r.request.retry.max_attempts
    → r.request.retry.lifetime
      <ℤ apply_jitter scale (configured_delay r.request.retry.delays (r.attempt_count + 1))
    → (any_where
          (is_dead message.notification_id)
          (handle
            (repository (all_answered clock))
            (with_jitter (apply_jitter scale) env)
            message
            db).0.tasks
        ≡ true)
      × (any_where
            (is_waiting message.notification_id)
            (handle (repository (all_answered clock)) (without_jitter env) message db).0.tasks
          ≡ true)
handle_lifted clock env scale message db r inv found free fits again unasked usable left lifted =
    let until = env.now +ℤ env.lease_ttl in
    let task = claimed_task env.lease until (claim_row clock env.lease until r) in
    let result = env.send (snapshot_of r) in
    let count = r.attempt_count + 1 in
    let jitter = with_jitter (apply_jitter scale) env in
    let dead_end : (attempt_for clock jitter r).outcome ≡ permanent =
      attempt_of-over jitter task result again (
        subst
          (λ t.
            next_attempt r.request.retry count t env.completed_at (some (apply_jitter scale))
            ≡ none)
          (sym unasked)
          (next_attempt_lifted r.request.retry count env.completed_at (apply_jitter scale)
            lifted)) in
    let goes_on : (attempt_for clock (without_jitter env) r).outcome ≡ retryable =
      attempt_of-again (without_jitter env) task result again (
        next_attempt_by_table r.request.retry count result.retry_after env.completed_at usable
          (omega arith) left (λ at e. absurd (ground (arith, e, unasked)))) in
    (
      recorded clock jitter message db r (is_dead message.notification_id) inv found free fits
          (λ x h. rw dead_end (ground (arith, h))),
      recorded clock (without_jitter env) message db r (is_waiting message.notification_id) inv
          found free fits (λ x h. rw goes_on (ground (arith, h))),
    )
