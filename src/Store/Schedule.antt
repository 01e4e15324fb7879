-- ===== src/Store/Schedule.antt =====
-- ScheduleDue of internal/store/postgres/retry.go, and retention.go.
pub mod Candidates
pub mod Settle
use rc_pangjiahui.Prelude.{
  ℕ, zero, suc, ◌+◌, String, Bool, true, false, not, ◌&&◌, ◌||◌, Option, none, some, List, [], ◌∷◌,
  ◌++◌, ◌=ₛ◌, if◌then◌else◌, length, take, leb, leb_ℤ, ltb_ℤ, ◌+ℤ◌, update_where, select_where,
  any_where, order_by, pos,
}
use rc_pangjiahui.Notification.Model.{
  Time, Status, pending, delivering, retry_wait, dead, same_status, ScheduleResult,
}
use rc_pangjiahui.Store.Tables.{
  TaskRow, EventRow, Db, Error, other, Fallible, ok, err, Reply, reply, has_id, event_has_id,
  is_for, event_checks,
}
use rc_pangjiahui.Store.Query.{ready_event}
use rc_pangjiahui.Store.Delivery.{nullif}
use rc_pangjiahui.Store.Outbox.{Engine, is_unpublished}

-- `c <= now` and `c < now`, which are not true of NULL.
abbrev pub has_come : Option Time → Time → Bool
has_come none now = false
has_come (some at) now = leb_ℤ at now

abbrev pub has_passed : Option Time → Time → Bool
has_passed none now = false
has_passed (some at) now = ltb_ℤ at now

-- The WHERE of the candidates: a retry that is due, or a lease that has run out.
abbrev pub is_due : Time → TaskRow → Bool
is_due now r =
    (same_status r.status retry_wait && has_come r.next_attempt_at now)
    || (same_status r.status delivering && has_passed r.lease_until now)

-- COALESCE(next_attempt_at, lease_until)
abbrev due_at : TaskRow → Option Time
due_at r = elim r.next_attempt_at [ some at ↦ some at | none ↦ r.lease_until ]

-- NULLS LAST
abbrev pub time_before : Option Time → Option Time → Bool
time_before none b = false
time_before (some a) none = true
time_before (some a) (some b) = ltb_ℤ a b

-- ORDER BY COALESCE(next_attempt_at, lease_until), id
abbrev pub task_before : Engine → TaskRow → TaskRow → Bool
task_before engine a b =
    time_before (due_at a) (due_at b)
    || (not (time_before (due_at b) (due_at a)) && engine.text_before a.id b.id)

unfoldable pub due_candidates : Engine → Time → ℕ → List TaskRow → List TaskRow
due_candidates engine now limit tasks = take limit (
    order_by (task_before engine)
      (select_where (λ r. is_due now r && not (engine.locked r.id)) tasks))

-- Neither attempts nor lifetime are left.
unfoldable pub is_exhausted : Time → TaskRow → Bool
is_exhausted now item =
    leb item.request.retry.max_attempts item.attempt_count
    || not (ltb_ℤ now (item.created_at +ℤ item.request.retry.lifetime))

abbrev pub dead_row : Time → TaskRow → TaskRow
dead_row now r = record r {
  status = dead;
  dead_at = some now;
  updated_at = now;
  lease_token = none;
  lease_until = none;
  next_attempt_at = none;
}

abbrev pub retry_row : ℕ → Time → String → TaskRow → TaskRow
retry_row generation now code r = record r {
  status = pending;
  generation = generation;
  updated_at = now;
  next_attempt_at = none;
  lease_token = none;
  lease_until = none;
  last_error_code = nullif code;
}

abbrev pub recovery_code : TaskRow → String
recovery_code item = if same_status item.status delivering then "delivery_lease_expired" else ""

abbrev pub recoveries : TaskRow → ℕ
recoveries item = if same_status item.status delivering then 1 else 0

-- What the server makes of the calls of ScheduleDue; `exec_up` tells of the statements for the
-- task of the given id. `digest` stands for the hex of the first half of the SHA-256 of "id:n".
pub record ScheduleCalls : Type 0 where
  pub begin_up : Bool
  pub select_up : Bool
  pub exec_up : String → Bool
  pub commit : Reply
  pub engine : Engine
  pub digest : String → ℕ → String

-- INSERT … ON CONFLICT (aggregate_id, generation) DO NOTHING: no row on that conflict; an
-- identifier that is taken is an error.
unfoldable pub insert_or_skip : EventRow → List EventRow → Option (List EventRow)
insert_or_skip e events =
    if not (event_checks e)
    then none
    else if any_where (is_for e.aggregate_id e.generation) events
    then some events
    else if any_where (event_has_id e.id) events
    then none
    else some (events ++ e ∷ [])

-- The statements for one candidate.
unfoldable pub schedule_one :
    ScheduleCalls → Time → TaskRow → Db × ScheduleResult → Fallible (Db × ScheduleResult)
schedule_one calls now item (db, result) =
    if not (calls.exec_up item.id)
    then err (other "schedule")
    else if is_exhausted now item
    then ok (
      record db { tasks = update_where (has_id item.id) (dead_row now) db.tasks },
      record result { dead = result.dead + 1 },
    )
    else let generation = item.generation + 1 in
      let tasks =
        update_where (has_id item.id) (retry_row generation now (recovery_code item)) db.tasks in
      let event =
        ready_event (calls.digest item.id generation) item.id generation
          (("notification_id", item.id) ∷ []) now in
      elim (insert_or_skip event db.events) [
        | none ↦ err (other "schedule")
        | some events ↦ ok (
          record { tasks = tasks; events = events },
          record result {
            scheduled = result.scheduled + 1;
            recovered_leases = result.recovered_leases + recoveries item;
          },
        )
      ]

-- The loop over the candidates.
unfoldable pub schedule_all :
    ScheduleCalls → Time → List TaskRow → Db × ScheduleResult → Fallible (Db × ScheduleResult)
schedule_all calls now [] s = ok s
schedule_all calls now (item ∷ items) s = elim (schedule_one calls now item s) [
  | err e ↦ err e
  | ok s' ↦ schedule_all calls now items s'
]

abbrev pub no_result : ScheduleResult
no_result = record { scheduled = 0; dead = 0; recovered_leases = 0 }

-- An error of a statement rolls the transaction back.
unfoldable pub schedule_due : ScheduleCalls → Time → ℕ → Db → Db × Fallible ScheduleResult
schedule_due calls now limit db =
    if not calls.begin_up
    then (db, err (other "begin schedule transaction"))
    else if not calls.select_up
    then (db, err (other "select due notifications"))
    else elim (schedule_all calls now (due_candidates calls.engine now limit db.tasks)
        (db, no_result)) [
          | err e ↦ (db, err e)
          | ok s ↦ reply calls.commit "commit schedule transaction" db s
        ]

-- A task that the retention may remove.
abbrev pub is_expired : Time → Db → TaskRow → Bool
is_expired cutoff db r =
    (same_status r.status Status.delivered || same_status r.status dead)
    && ltb_ℤ r.updated_at cutoff
    && not (any_where (λ e. e.aggregate_id =ₛ r.id && is_unpublished e) db.events)

-- ORDER BY updated_at, id
abbrev pub older : Engine → TaskRow → TaskRow → Bool
older engine a b =
    ltb_ℤ a.updated_at b.updated_at
    || (not (ltb_ℤ b.updated_at a.updated_at) && engine.text_before a.id b.id)

unfoldable pub expired_candidates : Engine → Time → ℕ → Db → List TaskRow
expired_candidates engine cutoff limit db = take limit (
    order_by (older engine)
      (select_where (λ r. is_expired cutoff db r && not (engine.locked r.id)) db.tasks))

abbrev pub is_named : List TaskRow → String → Bool
is_named rows id = any_where (has_id id) rows

-- DeleteTerminalBefore. The events of a task go with it (ON DELETE CASCADE).
unfoldable pub delete_terminal_before : Reply → Engine → Time → ℕ → Db → Db × Fallible ℕ
unfolding expired_candidates
delete_terminal_before call engine cutoff limit db =
    let gone = expired_candidates engine cutoff limit db in
    reply call "delete terminal notifications" db (
      record {
        tasks = select_where (λ r. not (is_named gone r.id)) db.tasks;
        events = select_where (λ e. not (is_named gone e.aggregate_id)) db.events;
      },
      length (select_where (λ r. is_named gone r.id) db.tasks),
    )
