-- ===== src/Intake.antt =====
-- internal/intake/service.go: the acceptance of a request.
pub mod Postgres
pub mod Laws
pub mod Answers
use rc_pangjiahui.Prelude.{
  ◌==◌, String, Bool, true, false, not, Option, none, some, List, [], ◌∷◌, if◌then◌else◌,
}
use rc_pangjiahui.Notification.Model.{
  Time, Bytes, pending, DeliverySnapshot, Task, empty_task, OutboxEvent,
}
use rc_pangjiahui.Notification.Hash.{request_hash}
use rc_pangjiahui.Destination.{Destination}
use rc_pangjiahui.Store.Query.{coalesce}
use rc_pangjiahui.Store.Tables.{
  Error, idempotency_conflict, unknown_destination, other, Fallible, ok, err,
}

-- The method of Repository over a state `S`.
pub record Repository (S : Type 0) : Type 0 where
  pub create_or_get : Task → OutboxEvent → S → S × Fallible (Option Task)

-- What Create takes from outside: the registry, JSON, SHA-256, the clock and the two
-- identifiers that it draws.
pub record Surroundings : Type 0 where
  pub registry : String → Option Destination
  pub canonical : Bytes → Option Bytes
  pub sha256 : Bytes → Bytes
  pub now : Time
  pub task_id : String
  pub event_id : String

pub record Request : Type 0 where
  pub caller : String
  pub idempotency_key : String
  pub destination_id : String
  pub payload : Bytes

-- The task, whether it was there before, and the observed outcome.
pub record Created : Type 0 where
  pub result : Fallible (Task × Bool)
  pub observed : String

-- `existing.RequestHash != hash`
unfoldable pub same_bytes : Bytes → Bytes → Bool
same_bytes [] [] = true
same_bytes (x ∷ xs) (y ∷ ys) = if x == y then same_bytes xs ys else false
same_bytes _ _ = false

abbrev pub task_of : Surroundings → Request → Destination → Bytes → Task
task_of env request target hash = record (empty_task pending) {
  id = env.task_id;
  caller_id = request.caller;
  idempotency_key = request.idempotency_key;
  request_hash = hash;
  snapshot = record {
    destination_id = request.destination_id;
    method = target.method;
    url = coalesce target.url "";
    static_headers = target.static_headers;
    secret_headers = target.secret_headers;
    body = request.payload;
    timeout = target.timeout;
    retry = target.retry;
    concurrency_limit = target.concurrency_limit;
    idempotency_key = request.idempotency_key;
  };
  created_at = env.now;
  updated_at = env.now;
}

abbrev pub event_of : Surroundings → OutboxEvent
event_of env = record {
  id = env.event_id;
  aggregate_id = env.task_id;
  generation = 0;
  event_type = "notification.ready";
  payload = ("event_id", env.event_id) ∷ ("notification_id", env.task_id) ∷ [];
  created_at = env.now;
  published_at = none;
  claim_token = "";
  claim_until = none;
  publish_attempts = 0;
}

-- The answer to what the repository returns.
unfoldable pub answer : Task → Bytes → Fallible (Option Task) → Created
unfolding same_bytes
answer task hash (err e) = record { result = err e; observed = "internal_error" }
answer task hash (ok none) = record { result = ok (task, false); observed = "accepted" }
answer task hash (ok (some existing)) =
    if not (same_bytes existing.request_hash hash)
    then record { result = err idempotency_conflict; observed = "idempotency_conflict" }
    else record { result = ok (existing, true); observed = "accepted" }

module _ {S : Type 0} (repository : Repository S) where
  unfoldable pub create : Surroundings → Request → S → S × Created
  create env request s = elim (env.registry request.destination_id) [
    | none ↦ (s, record { result = err unknown_destination; observed = "unknown_destination" })
    | some target ↦
        elim (request_hash env.canonical env.sha256 request.destination_id request.payload) [
          | none ↦ (s, record { result = err (other "hash request"); observed = "invalid_payload" })
          | some hash ↦
              let task = task_of env request target hash in
              let (s', existing) = repository.create_or_get task (event_of env) s in
              (s', answer task hash existing)
        ]
  ]
