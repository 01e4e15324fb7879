-- ===== src/Store/Intake.antt =====
-- internal/store/postgres/intake.go and the insertion of internal/store/postgres/outbox.go.
pub mod Atomic
use rc_pangjiahui.Prelude.{String, Bool, Option, none, some, ◌=ₛ◌, if◌then◌else◌}
use rc_pangjiahui.Notification.Model.{Task, OutboxEvent}
use rc_pangjiahui.Store.Tables.{
  TaskRow, EventRow, Request, Db, Error, idempotency_conflict, generation_conflict, other, Fallible,
  ok, err, Reply, PgError, constraint, failure, insert_task, insert_event, with_tx,
}
use rc_pangjiahui.Store.Query.{ready_event, get_by_caller_and_key}

-- The row that CreateNotification inserts. The columns that it does not name are NULL.
abbrev pub row_of : Task → TaskRow
row_of task = record {
  id = task.id;
  caller_id = task.caller_id;
  idempotency_key = task.idempotency_key;
  request_hash = task.request_hash;
  request = record {
    destination_id = task.snapshot.destination_id;
    method = task.snapshot.method;
    url = task.snapshot.url;
    static_headers = task.snapshot.static_headers;
    secret_headers = task.snapshot.secret_headers;
    body = task.snapshot.body;
    timeout_ns = task.snapshot.timeout;
    retry = task.snapshot.retry;
    concurrency_limit = task.snapshot.concurrency_limit;
  };
  status = task.status;
  attempt_count = task.attempt_count;
  generation = task.generation;
  next_attempt_at = none;
  lease_token = none;
  lease_until = none;
  last_http_status = none;
  last_error_code = none;
  last_error_message = none;
  created_at = task.created_at;
  updated_at = task.updated_at;
  delivered_at = none;
  dead_at = none;
}

-- The error that CreateNotification makes of the server's.
unfoldable pub task_error : PgError → Error
task_error (constraint name) =
    if name =ₛ "notification_tasks_caller_id_idempotency_key_key"
    then idempotency_conflict
    else other "insert notification"
task_error failure = other "insert notification"

unfoldable pub create_notification : Bool → Task → Db → Db × Option Error
unfolding task_error
create_notification up task db =
    let (db', error) = insert_task up (row_of task) db in
    elim error [ none ↦ (db', none) | some e ↦ (db', some (task_error e)) ]

-- The row that InsertOutbox inserts.
abbrev pub event_row_of : OutboxEvent → EventRow
event_row_of event = record {
  id = event.id;
  aggregate_id = event.aggregate_id;
  generation = event.generation;
  event_type = event.event_type;
  payload = event.payload;
  created_at = event.created_at;
  published_at = none;
  claim_token = none;
  claim_until = none;
  publish_attempts = 0;
}

unfoldable pub event_error : PgError → Error
event_error (constraint name) =
    if name =ₛ "outbox_events_aggregate_id_generation_key"
    then generation_conflict
    else other "insert outbox event"
event_error failure = other "insert outbox event"

unfoldable pub insert_outbox : Bool → OutboxEvent → Db → Db × Option Error
unfolding event_error
insert_outbox up event db =
    let (db', error) = insert_event up (event_row_of event) db in
    elim error [ none ↦ (db', none) | some e ↦ (db', some (event_error e)) ]

-- What the server makes of each call of CreateOrGet.
pub record CreateCalls : Type 0 where
  pub begin_up : Bool
  pub task_up : Bool
  pub event_up : Bool
  pub commit : Reply
  pub get_up : Bool

-- The function that CreateOrGet hands to WithTx.
unfoldable pub create_body : CreateCalls → Task → OutboxEvent → Db → Db × Option Error
create_body calls task event db =
    let (db', error) = create_notification calls.task_up task db in
    elim error [ none ↦ insert_outbox calls.event_up event db' | some e ↦ (db', some e) ]

-- errors.Is(err, ErrIdempotencyConflict)
abbrev pub is_conflict : Error → Bool
is_conflict idempotency_conflict = Bool.true
is_conflict _ = Bool.false

-- No task: the given one was created. A task: the one that has the caller's key already.
unfoldable pub create_or_get : CreateCalls → Task → OutboxEvent → Db → Db × Fallible (Option Task)
create_or_get calls task event db =
    let (db', error) = with_tx calls.begin_up calls.commit (create_body calls task event) db in
    elim error [
      | none ↦ (db', ok none)
      | some e ↦
          if is_conflict e
          then elim (get_by_caller_and_key calls.get_up task.caller_id task.idempotency_key db') [
            | ok existing ↦ (db', ok (some existing))
            | err e' ↦ (db', err e')
          ]
          else (db', err e)
    ]
