-- ===== src/Notification/Model.antt =====
-- The records and enumerations of internal/notification/model.go.
-- An instant is the number of nanoseconds since the first of January of the year 1, the zero time;
-- a duration is a number of nanoseconds.
-- Counters and HTTP statuses, which the schema and net/http keep from being negative, are numbers.
use rc_pangjiahui.Prelude.{ℕ, ℤ, pos, String, Option, none, List, [], Bool, true, false}

abbrev pub Time : Type 0
Time = ℤ

abbrev pub Duration : Type 0
Duration = ℤ

abbrev pub Bytes : Type 0
Bytes = List ℕ

pub data Status : Type 0 where
  pending delivering retry_wait delivered dead : Status

-- `from == to` on statuses.
abbrev pub same_status : Status → Status → Bool
same_status Status.pending Status.pending = true
same_status Status.delivering Status.delivering = true
same_status Status.retry_wait Status.retry_wait = true
same_status Status.delivered Status.delivered = true
same_status Status.dead Status.dead = true
same_status _ _ = false

pub data Outcome : Type 0 where
  delivered retryable permanent : Outcome

pub record RetryPolicy : Type 0 where
  pub max_attempts : ℕ
  pub lifetime : Duration
  pub delays : List Duration

-- http.Header: each name with its values.
abbrev pub Header : Type 0
Header = List (String × List String)

pub record DeliverySnapshot : Type 0 where
  pub destination_id : String
  pub method : String
  pub url : String
  pub static_headers : Header
  pub secret_headers : List (String × String)
  pub body : Bytes
  pub timeout : Duration
  pub retry : RetryPolicy
  pub concurrency_limit : ℕ
  pub idempotency_key : String

-- A nil pointer is `none`; an unset string, number or time is "", 0 or the zero time.
pub record Task : Type 0 where
  pub id : String
  pub caller_id : String
  pub idempotency_key : String
  pub request_hash : Bytes
  pub snapshot : DeliverySnapshot
  pub status : Status
  pub attempt_count : ℕ
  pub generation : ℕ
  pub next_attempt_at : Option Time
  pub lease_token : String
  pub lease_until : Option Time
  pub last_http_status : ℕ
  pub last_error_code : String
  pub last_error : String
  pub created_at : Time
  pub updated_at : Time
  pub delivered_at : Option Time
  pub dead_at : Option Time

-- The zero values.
abbrev pub zero_time : Time
zero_time = pos 0

abbrev pub empty_snapshot : DeliverySnapshot
empty_snapshot = record {
  destination_id = "";
  method = "";
  url = "";
  static_headers = [];
  secret_headers = [];
  body = [];
  timeout = pos 0;
  retry = record { max_attempts = 0; lifetime = pos 0; delays = [] };
  concurrency_limit = 0;
  idempotency_key = "";
}

-- The empty status stands for no state, and every function that fills a task in sets it.
abbrev pub empty_task : Status → Task
empty_task status = record {
  id = "";
  caller_id = "";
  idempotency_key = "";
  request_hash = [];
  snapshot = empty_snapshot;
  status = status;
  attempt_count = 0;
  generation = 0;
  next_attempt_at = none;
  lease_token = "";
  lease_until = none;
  last_http_status = 0;
  last_error_code = "";
  last_error = "";
  created_at = zero_time;
  updated_at = zero_time;
  delivered_at = none;
  dead_at = none;
}

-- A JSON object of texts.
abbrev pub Payload : Type 0
Payload = List (String × String)

pub record OutboxEvent : Type 0 where
  pub id : String
  pub aggregate_id : String
  pub generation : ℕ
  pub event_type : String
  pub payload : Payload
  pub created_at : Time
  pub published_at : Option Time
  pub claim_token : String
  pub claim_until : Option Time
  pub publish_attempts : ℕ

pub record AttemptResult : Type 0 where
  pub outcome : Outcome
  pub http_status : ℕ
  pub error_code : String
  pub error_message : String
  pub next_attempt_at : Option Time
  pub completed_at : Time

pub record Claim : Type 0 where
  pub task : Task
  pub acquired : Bool

pub record ScheduleResult : Type 0 where
  pub scheduled : ℕ
  pub dead : ℕ
  pub recovered_leases : ℕ
