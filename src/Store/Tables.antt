-- ===== src/Store/Tables.antt =====
-- The tables of migrations/000001_initial.up.sql and 000002, and internal/store/postgres/tx.go.
use Prim.Native.String.{count}
use rc_pangjiahui.Prelude.{
  ℕ, ◌≡◌, refl, ◌⊎◌, inl, inr, String, Bool, not, ◌&&◌, ◌||◌, Option, none, some, List, [], ◌∷◌,
  ◌++◌, leb, ltb, ◌==◌, ◌=ₛ◌, if◌then◌else◌, length, any_where, pos, ltb_ℤ,
}
use rc_pangjiahui.Notification.Model.{Time, Duration, Bytes, Status, RetryPolicy, Header, Payload}

-- The columns that hold the request, which no statement changes after the insertion.
pub record Request : Type 0 where
  pub destination_id : String
  pub method : String
  pub url : String
  pub static_headers : Header
  pub secret_headers : List (String × String)
  pub body : Bytes
  pub timeout_ns : Duration
  pub retry : RetryPolicy
  pub concurrency_limit : ℕ

-- A row of notification_tasks. NULL is `none`.
pub record TaskRow : Type 0 where
  pub id : String
  pub caller_id : String
  pub idempotency_key : String
  pub request_hash : Bytes
  pub request : Request
  pub status : Status
  pub attempt_count : ℕ
  pub generation : ℕ
  pub next_attempt_at : Option Time
  pub lease_token : Option String
  pub lease_until : Option Time
  pub last_http_status : Option ℕ
  pub last_error_code : Option String
  pub last_error_message : Option String
  pub created_at : Time
  pub updated_at : Time
  pub delivered_at : Option Time
  pub dead_at : Option Time

-- A row of outbox_events, less last_error, which no statement names.
pub record EventRow : Type 0 where
  pub id : String
  pub aggregate_id : String
  pub generation : ℕ
  pub event_type : String
  pub payload : Payload
  pub created_at : Time
  pub published_at : Option Time
  pub claim_token : Option String
  pub claim_until : Option Time
  pub publish_attempts : ℕ

pub record Db : Type 0 where
  pub tasks : List TaskRow
  pub events : List EventRow

-- The errors that the code tells apart by errors.Is, and all others with their text.
pub data Error : Type 0 where
  idempotency_conflict generation_conflict not_found task_not_found not_dead : Error
  unknown_destination : Error
  other : String → Error

pub data Fallible {ℓ} (A : Type ℓ) : Type ℓ where
  ok : A → Fallible A
  err : Error → Fallible A

pub Fallible-cases {ℓ} :
    {A : Type ℓ} (f : Fallible A) → ((a : A) × (f ≡ ok a)) ⊎ ((e : Error) × (f ≡ err e))
Fallible-cases (ok a) = inl (a, refl)
Fallible-cases (err e) = inr (e, refl)

-- What the server makes of a statement that commits by itself, or of a commit: it carries it out
-- and answers, it does not carry it out, or it carries it out and the answer is lost.
pub data Reply : Type 0 where
  answered refused lost : Reply

-- The statement's table and result, under a reply; `text` is the text of the error.
abbrev pub reply {ℓ} : {A : Type ℓ} → Reply → String → Db → Db × A → Db × Fallible A
reply answered text db (db', a) = (db', ok a)
reply refused text db (db', a) = (db, err (other text))
reply lost text db (db', a) = (db', err (other text))

-- What a failed insertion names: the violated constraint, or another failure.
pub data PgError : Type 0 where
  constraint : String → PgError
  failure : PgError

-- length(c) BETWEEN 1 AND n
abbrev pub has_length : String → ℕ → Bool
has_length c n = leb 1 (count c) && leb (count c) n

-- The CHECK constraints on the columns that an insertion into notification_tasks sets.
unfoldable pub task_checks : TaskRow → Bool
task_checks r =
    has_length r.id 64
    && has_length r.caller_id 128
    && has_length r.idempotency_key 256
    && length r.request_hash == 32
    && has_length r.request.destination_id 128
    && (r.request.method =ₛ "POST" || r.request.method =ₛ "PUT" || r.request.method =ₛ "PATCH")
    && has_length r.request.url 2048
    && ltb_ℤ (pos 0) r.request.timeout_ns
    && leb 1 r.request.retry.max_attempts
    && leb r.request.retry.max_attempts 32
    && ltb_ℤ (pos 0) r.request.retry.lifetime
    && ltb 0 r.request.concurrency_limit

abbrev pub has_id : String → TaskRow → Bool
has_id id r = r.id =ₛ id

abbrev pub has_key : String → String → TaskRow → Bool
has_key caller key r = r.caller_id =ₛ caller && r.idempotency_key =ₛ key

abbrev pub event_has_id : String → EventRow → Bool
event_has_id id e = e.id =ₛ id

abbrev pub is_for : String → ℕ → EventRow → Bool
is_for aggregate generation e = e.aggregate_id =ₛ aggregate && e.generation == generation

-- INSERT INTO notification_tasks. `up` says whether the statement reaches the server.
unfoldable pub insert_task : Bool → TaskRow → Db → Db × Option PgError
insert_task up r db =
    if not up
    then (db, some PgError.failure)
    else if not (task_checks r)
    then (db, some (PgError.constraint "notification_tasks_check"))
    else if any_where (has_id r.id) db.tasks
    then (db, some (PgError.constraint "notification_tasks_pkey"))
    else if any_where (has_key r.caller_id r.idempotency_key) db.tasks
    then (db, some (PgError.constraint "notification_tasks_caller_id_idempotency_key_key"))
    else (record db { tasks = db.tasks ++ r ∷ [] }, none)

-- The CHECK constraints on the columns that an insertion into outbox_events sets.
unfoldable pub event_checks : EventRow → Bool
event_checks e = has_length e.id 64 && has_length e.event_type 128

-- INSERT INTO outbox_events.
unfoldable pub insert_event : Bool → EventRow → Db → Db × Option PgError
insert_event up e db =
    if not up
    then (db, some PgError.failure)
    else if not (event_checks e)
    then (db, some (PgError.constraint "outbox_events_check"))
    else if any_where (event_has_id e.id) db.events
    then (db, some (PgError.constraint "outbox_events_pkey"))
    else if any_where (is_for e.aggregate_id e.generation) db.events
    then (db, some (PgError.constraint "outbox_events_aggregate_id_generation_key"))
    else if not (any_where (has_id e.aggregate_id) db.tasks)
    then (db, some (PgError.constraint "outbox_events_aggregate_id_fkey"))
    else (record db { events = db.events ++ e ∷ [] }, none)

-- WithTx: `up` says whether the transaction begins. An error of the body rolls it back.
unfoldable pub with_tx : Bool → Reply → (Db → Db × Option Error) → Db → Db × Option Error
with_tx up commit body db =
    if not up
    then (db, some (other "begin transaction"))
    else let (db', error) = body db in
      elim error [
        | some e ↦ (db, some e)
        | none ↦ elim commit [
          | answered ↦ (db', none)
          | refused ↦ (db, some (other "commit transaction"))
          | lost ↦ (db', some (other "commit transaction"))
        ]
      ]
