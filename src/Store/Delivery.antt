-- ===== src/Store/Delivery.antt =====
-- internal/store/postgres/delivery.go, and the two methods of retry.go that are its variants.
use Prim.Native.String.{count}
use rc_pangjiahui.Prelude.{
  ℕ, leb, not, any_where, ◌+◌, String, Bool, true, false, ◌&&◌, Option, none, some, ◌==◌, ◌=ₛ◌,
  if◌then◌else◌, update_where, find_where, count_where,
}
use rc_pangjiahui.Notification.Model.{
  Time, Status, pending, delivering, retry_wait, dead, same_status, Outcome, retryable, permanent,
  Task, DeliverySnapshot, empty_task, AttemptResult, Claim,
}
use rc_pangjiahui.Store.Tables.{TaskRow, Db, Fallible, err, other, Reply, reply}
use rc_pangjiahui.Store.Query.{is_dead, replay_row}

abbrev pub is_pending : String → TaskRow → Bool
is_pending id r = r.id =ₛ id && same_status r.status pending

-- The row that the UPDATE of ClaimDelivery writes; `clock` is the server's now().
abbrev pub claim_row : Time → String → Time → TaskRow → TaskRow
claim_row clock lease until r = record r {
  status = delivering;
  lease_token = some lease;
  lease_until = some until;
  attempt_count = r.attempt_count + 1;
  updated_at = clock;
}

-- The snapshot that ClaimDelivery reads back.
abbrev pub snapshot_of : TaskRow → DeliverySnapshot
snapshot_of r = record {
  destination_id = r.request.destination_id;
  method = r.request.method;
  url = r.request.url;
  static_headers = r.request.static_headers;
  secret_headers = r.request.secret_headers;
  body = r.request.body;
  timeout = r.request.timeout_ns;
  retry = r.request.retry;
  concurrency_limit = r.request.concurrency_limit;
  idempotency_key = r.idempotency_key;
}

-- The task that ClaimDelivery makes of the row that its UPDATE returns.
abbrev pub claimed_task : String → Time → TaskRow → Task
claimed_task lease until r = record (empty_task r.status) {
  id = r.id;
  caller_id = r.caller_id;
  idempotency_key = r.idempotency_key;
  snapshot = snapshot_of r;
  attempt_count = r.attempt_count;
  generation = r.generation;
  created_at = r.created_at;
  updated_at = r.updated_at;
  lease_token = lease;
  lease_until = some until;
}

-- Claim{}, whose task nobody reads.
abbrev no_claim : Claim
no_claim = record { task = empty_task pending; acquired = false }

abbrev pub claim_of : Time → String → Time → Option TaskRow → Claim
claim_of clock lease until none = no_claim
claim_of clock lease until (some r) = record {
  task = claimed_task lease until (claim_row clock lease until r);
  acquired = true;
}

unfoldable pub claim_delivery : Reply → Time → String → String → Time → Db → Db × Fallible Claim
claim_delivery call clock id lease until db = reply call "claim delivery" db (
  record db { tasks = update_where (is_pending id) (claim_row clock lease until) db.tasks },
  claim_of clock lease until (find_where (is_pending id) db.tasks),
)

-- NULLIF(c, default)
abbrev pub nullif_ℕ : ℕ → Option ℕ
nullif_ℕ n = if n == 0 then none else some n

abbrev pub nullif : String → Option String
nullif s = if s =ₛ "" then none else some s

-- c = token, which is not true of NULL.
abbrev pub has_token : Option String → String → Bool
has_token none token = false
has_token (some t) token = t =ₛ token

abbrev pub is_leased : String → String → TaskRow → Bool
is_leased id lease r =
    r.id =ₛ id && same_status r.status delivering && has_token r.lease_token lease

abbrev pub status_of : Outcome → Status
status_of Outcome.delivered = Status.delivered
status_of retryable = retry_wait
status_of permanent = dead

abbrev pub next_of : Outcome → Option Time → Option Time
next_of retryable next = next
next_of _ next = none

abbrev pub delivered_of : Outcome → Time → Option Time
delivered_of Outcome.delivered at = some at
delivered_of _ at = none

abbrev pub dead_of : Outcome → Time → Option Time
dead_of permanent at = some at
dead_of _ at = none

-- The row that the UPDATE of ApplyDeliveryResult writes.
abbrev pub result_row : AttemptResult → TaskRow → TaskRow
result_row result r = record r {
  status = status_of result.outcome;
  next_attempt_at = next_of result.outcome result.next_attempt_at;
  lease_token = none;
  lease_until = none;
  last_http_status = nullif_ℕ result.http_status;
  last_error_code = nullif result.error_code;
  last_error_message = nullif result.error_message;
  updated_at = result.completed_at;
  delivered_at = delivered_of result.outcome result.completed_at;
  dead_at = dead_of result.outcome result.completed_at;
}

-- The CHECK constraints on the columns that the UPDATE sets.
unfoldable pub result_checks : AttemptResult → Bool
result_checks result = leb (count result.error_code) 128 && leb (count result.error_message) 1024

-- The server refuses an UPDATE that would write a row against a constraint.
unfoldable pub apply_delivery_result :
    Reply → String → String → AttemptResult → Db → Db × Fallible Bool
apply_delivery_result call id lease result db =
    if any_where (is_leased id lease) db.tasks && not (result_checks result)
    then (db, err (other "apply delivery result"))
    else reply call "apply delivery result" db (
      record db { tasks = update_where (is_leased id lease) (result_row result) db.tasks },
      count_where (is_leased id lease) db.tasks == 1,
    )

unfoldable pub schedule_retry :
    Reply → String → String → Time → AttemptResult → Db → Db × Fallible Bool
unfolding apply_delivery_result
schedule_retry call id lease next result db =
    apply_delivery_result call id lease (record result { next_attempt_at = some next }) db

-- ReplayDead, which makes no event.
unfoldable pub replay_dead : Reply → String → Time → Db → Db × Fallible Bool
replay_dead call id now db = reply call "replay dead task" db (
  record db { tasks = update_where (is_dead id) (replay_row now) db.tasks },
  count_where (is_dead id) db.tasks == 1,
)
