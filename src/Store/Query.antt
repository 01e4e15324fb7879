-- ===== src/Store/Query.antt =====
-- internal/store/postgres/query.go: the two reads, and the replay of a dead task.
use rc_pangjiahui.Prelude.{
  ℕ, ◌+◌, String, Bool, not, ◌&&◌, Option, none, some, [], ◌∷◌, ◌=ₛ◌, if◌then◌else◌, update_where,
  find_where,
}
use rc_pangjiahui.Notification.Model.{
  Time, pending, dead, same_status, Task, empty_task, empty_snapshot, Payload,
}
use rc_pangjiahui.Store.Tables.{
  TaskRow, EventRow, Db, not_found, task_not_found, other, Fallible, ok, err, Reply, reply, has_key,
  insert_event,
}

-- The columns that GetByCallerAndKey selects; all other fields stay empty.
abbrev pub key_view : TaskRow → Task
key_view r = record (empty_task r.status) {
  id = r.id;
  caller_id = r.caller_id;
  idempotency_key = r.idempotency_key;
  request_hash = r.request_hash;
  attempt_count = r.attempt_count;
  generation = r.generation;
  created_at = r.created_at;
  updated_at = r.updated_at;
}

unfoldable pub get_by_caller_and_key : Bool → String → String → Db → Fallible Task
get_by_caller_and_key up caller key db =
    if not up
    then err (other "get notification")
    else elim (find_where (has_key caller key) db.tasks) [
      | none ↦ err not_found
      | some r ↦ ok (key_view r)
    ]

-- COALESCE(c, default)
abbrev pub coalesce {ℓ} : {A : Type ℓ} → Option A → A → A
coalesce none d = d
coalesce (some a) d = a

-- The columns that GetForCaller selects.
abbrev pub caller_view : TaskRow → Task
caller_view r = record (empty_task r.status) {
  id = r.id;
  caller_id = r.caller_id;
  snapshot = record empty_snapshot { destination_id = r.request.destination_id };
  attempt_count = r.attempt_count;
  next_attempt_at = r.next_attempt_at;
  last_http_status = coalesce r.last_http_status 0;
  last_error_code = coalesce r.last_error_code "";
  last_error = coalesce r.last_error_message "";
  created_at = r.created_at;
  updated_at = r.updated_at;
  delivered_at = r.delivered_at;
  dead_at = r.dead_at;
}

abbrev pub is_owned : String → String → TaskRow → Bool
is_owned id caller r = r.id =ₛ id && r.caller_id =ₛ caller

unfoldable pub get_for_caller : Bool → String → String → Db → Fallible Task
get_for_caller up caller id db =
    if not up
    then err (other "get notification for caller")
    else elim (find_where (is_owned id caller) db.tasks) [
      | none ↦ err task_not_found
      | some r ↦ ok (caller_view r)
    ]

abbrev pub is_dead : String → TaskRow → Bool
is_dead id r = r.id =ₛ id && same_status r.status dead

-- The row that the UPDATE of a replay writes.
abbrev pub replay_row : Time → TaskRow → TaskRow
replay_row now r = record r {
  status = pending;
  generation = r.generation + 1;
  next_attempt_at = none;
  lease_token = none;
  lease_until = none;
  dead_at = none;
  updated_at = now;
}

-- An event that asks for a delivery of the task in the given generation.
abbrev pub ready_event : String → String → ℕ → Payload → Time → EventRow
ready_event event_id id generation payload now = record {
  id = event_id;
  aggregate_id = id;
  generation = generation;
  event_type = "notification.ready";
  payload = payload;
  created_at = now;
  published_at = none;
  claim_token = none;
  claim_until = none;
  publish_attempts = 0;
}

-- What the server makes of each part of a transaction.
pub record TxCalls : Type 0 where
  pub begin_up : Bool
  pub update_up : Bool
  pub insert_up : Bool
  pub commit : Reply

-- The statements of the replay inside its transaction. The result is whether a row was dead.
unfoldable pub replay_body : TxCalls → String → Time → String → Db → Db × Fallible Bool
replay_body calls id now event_id db =
    if not calls.update_up
    then (db, err (other "update replay task"))
    else elim (find_where (is_dead id) db.tasks) [
      | none ↦ (db, ok Bool.false)
      | some r ↦
          let updated = record db { tasks = update_where (is_dead id) (replay_row now) db.tasks } in
          let event =
            ready_event event_id id (r.generation + 1) (("notification_id", id) ∷ []) now in
          let (db', error) = insert_event calls.insert_up event updated in
          elim error [
            | none ↦ (db', ok Bool.true)
            | some e ↦ (db, err (other "insert replay outbox"))
          ]
    ]

-- ReplayDeadAtomic. With no dead row it returns before the commit.
unfoldable pub replay_dead_atomic : TxCalls → String → Time → String → Db → Db × Fallible Bool
unfolding replay_body
replay_dead_atomic calls id now event_id db =
    if not calls.begin_up
    then (db, err (other "begin replay"))
    else let (db', result) = replay_body calls id now event_id db in
      elim result [
        | err e ↦ (db, err e)
        | ok applied ↦
            if not applied
            then (db, ok applied)
            else reply calls.commit "commit replay" db (db', applied)
      ]
