-- ===== src/Store/Intake/Atomic.antt =====
-- CreateOrGet creates a task together with its event, or nothing; a key is used once.
use rc_pangjiahui.Prelude.{
  Bool, true, false, ◌≡◌, ◌⊎◌, refl, ◌∙◌, inl, inr, Option, none, some, [], ◌∷◌, ◌++◌, arith,
  any_where, find_where, Option-cases,
}
use rc_pangjiahui.Prelude.RowLaws.{All-find}
use rc_pangjiahui.Notification.Model.{Task, OutboxEvent}
use rc_pangjiahui.Store.Tables.{
  TaskRow, Db, Error, ok, Reply, answered, has_id, has_key, task_checks, insert_task, with_tx,
}
use rc_pangjiahui.Store.Query.{key_view, get_by_caller_and_key}
use rc_pangjiahui.Store.Intake.{
  row_of, create_notification, event_row_of, insert_outbox, CreateCalls, create_body, create_or_get,
}
use rc_pangjiahui.Store.Invariant.Changes.{insert_event-cases}
use rc_pangjiahui.Store.Invariant.Intake.{
  create_notification-cases, create_or_get-db, with_tx_keeps,
}

-- The tables with the task and its event.
abbrev pub created : Task → OutboxEvent → Db → Db
created task event db = record {
  tasks = db.tasks ++ row_of task ∷ [];
  events = db.events ++ event_row_of event ∷ [];
}

insert_outbox-cases :
    (up : Bool) (event : OutboxEvent) (db : Db)
    → (insert_outbox up event db).1 ≡ none
    → (insert_outbox up event db).0 ≡ record db { events = db.events ++ event_row_of event ∷ [] }
unfolding insert_outbox
insert_outbox-cases up event db h = ground (arith, insert_event-cases up (event_row_of event) db)

create_body-created :
    (calls : CreateCalls) (task : Task) (event : OutboxEvent) (db : Db)
    → (create_body calls task event db).1 ≡ none
    → (create_body calls task event db).0 ≡ created task event db
unfolding create_body
create_body-created calls task event db =
    elim (Option-cases (create_notification calls.task_up task db).1) [
      | inr (x, failed) ↦ rw (failed, create_body) (λ e. cc)
      | inl fine ↦
          let (after, _, _) = create_notification-cases calls.task_up task db fine in
          rw (fine, create_body, after)
            (insert_outbox-cases calls.event_up event
              (record db { tasks = db.tasks ++ row_of task ∷ [] }))
    ]

-- Whatever the server makes of the calls, the tables are as before or hold the task and its event.
pub create_or_get_atomic :
    (calls : CreateCalls) (task : Task) (event : OutboxEvent) (db : Db)
    → ((create_or_get calls task event db).0 ≡ db)
      ⊎ ((create_or_get calls task event db).0 ≡ created task event db)
create_or_get_atomic calls task event db = rw (create_or_get-db calls task event db) (
    with_tx_keeps (λ d. (d ≡ db) ⊎ (d ≡ created task event db)) calls.begin_up calls.commit
      (create_body calls task event) db (inl refl)
      (λ h. inr (create_body-created calls task event db h)))

create_body-new_id :
    (calls : CreateCalls) (task : Task) (event : OutboxEvent) (db : Db)
    → (create_body calls task event db).1 ≡ none
    → any_where (has_id task.id) db.tasks ≡ false
unfolding create_body
create_body-new_id calls task event db =
    elim (Option-cases (create_notification calls.task_up task db).1) [
      | inr (x, failed) ↦ rw (failed, create_body) (λ h. cc)
      | inl fine ↦ λ _. (create_notification-cases calls.task_up task db fine).1
    ]

-- The same, with the identifier of the new task.
pub create_or_get_fresh :
    (calls : CreateCalls) (task : Task) (event : OutboxEvent) (db : Db)
    → ((create_or_get calls task event db).0 ≡ db)
      ⊎ (((create_or_get calls task event db).0 ≡ created task event db)
          × (any_where (has_id task.id) db.tasks ≡ false))
create_or_get_fresh calls task event db = rw (create_or_get-db calls task event db) (
    with_tx_keeps
      (λ d.
        (d ≡ db) ⊎ ((d ≡ created task event db) × (any_where (has_id task.id) db.tasks ≡ false)))
      calls.begin_up calls.commit (create_body calls task event) db (inl refl)
      (λ h.
        inr (create_body-created calls task event db h, create_body-new_id calls task event db h)))

with_tx-none :
    (up : Bool) (commit : Reply) (body : Db → Db × Option Error) (db : Db)
    → (with_tx up commit body db).1 ≡ none
    → ((body db).1 ≡ none) × ((with_tx up commit body db).0 ≡ (body db).0) × (commit ≡ answered)
unfolding with_tx
with_tx-none up commit body db h = ground arith

create_or_get-tx :
    (calls : CreateCalls) (task : Task) (event : OutboxEvent) (db : Db)
    → (create_or_get calls task event db).1 ≡ ok none
    → (with_tx calls.begin_up calls.commit (create_body calls task event) db).1 ≡ none
unfolding create_or_get
create_or_get-tx calls task event db =
    elim (Option-cases (with_tx calls.begin_up calls.commit (create_body calls task event) db).1) [
      | inl fine ↦ λ _. fine
      | inr (e, failed) ↦ rw (failed, create_or_get) (ground arith)
    ]

-- A task is reported as created only after the commit, when the tables hold it and its event.
pub create_or_get_created :
    (calls : CreateCalls) (task : Task) (event : OutboxEvent) (db : Db)
    → (create_or_get calls task event db).1 ≡ ok none
    → ((create_or_get calls task event db).0 ≡ created task event db) × (calls.commit ≡ answered)
create_or_get_created calls task event db h =
    let fine = create_or_get-tx calls task event db h in
    let (body, same, committed) =
      with_tx-none calls.begin_up calls.commit (create_body calls task event) db fine in
    (
      create_or_get-db calls task event db ∙ same ∙ create_body-created calls task event db body,
      committed,
    )

create_body-new_key :
    (calls : CreateCalls) (task : Task) (event : OutboxEvent) (db : Db)
    → (create_body calls task event db).1 ≡ none
    → any_where (has_key task.caller_id task.idempotency_key) db.tasks ≡ false
unfolding create_body
create_body-new_key calls task event db =
    elim (Option-cases (create_notification calls.task_up task db).1) [
      | inr (x, failed) ↦ rw (failed, create_body) (λ e. cc)
      | inl fine ↦ λ _. (create_notification-cases calls.task_up task db fine).2
    ]

-- A task that is reported as created has a key that no task had.
pub create_or_get-new_key :
    (calls : CreateCalls) (task : Task) (event : OutboxEvent) (db : Db)
    → (create_or_get calls task event db).1 ≡ ok none
    → any_where (has_key task.caller_id task.idempotency_key) db.tasks ≡ false
create_or_get-new_key calls task event db h =
    create_body-new_key calls task event db
      (with_tx-none calls.begin_up calls.commit (create_body calls task event) db
        (create_or_get-tx calls task event db h)).0

-- A task that was there before is the one that the tables hold under the key.
pub create_or_get-existing :
    (calls : CreateCalls) (task : Task) (event : OutboxEvent) (db : Db) (existing : Task)
    → (create_or_get calls task event db).1 ≡ ok (some existing)
    → (r : TaskRow) × (find_where
          (has_key task.caller_id task.idempotency_key)
          (create_or_get calls task event db).0.tasks
        ≡ some r)
      × (existing ≡ key_view r)
unfolding create_or_get get_by_caller_and_key
create_or_get-existing calls task event db existing h =
    let tx = with_tx calls.begin_up calls.commit (create_body calls task event) db in
    elim (Option-cases tx.1) [
      | inl fine ↦ absurd (ground (arith, h, fine))
      | inr (e, failed) ↦
          elim (Option-cases
            (find_where (has_key task.caller_id task.idempotency_key) tx.0.tasks)) [
              | inl missing ↦ absurd (ground (arith, h, failed, missing))
              | inr (r, found) ↦
                  (r, ground (arith, h, failed, found), ground (arith, h, failed, found))
            ]
    ]

-- A request with a used key is answered with the task that has the key, and changes nothing, if the
-- new row is valid and its identifier is free.
pub create_or_get_again :
    (calls : CreateCalls) (task : Task) (event : OutboxEvent) (db : Db) (r : TaskRow)
    → calls.begin_up ≡ true
    → calls.task_up ≡ true
    → calls.get_up ≡ true
    → task_checks (row_of task) ≡ true
    → any_where (has_id task.id) db.tasks ≡ false
    → find_where (has_key task.caller_id task.idempotency_key) db.tasks ≡ some r
    → create_or_get calls task event db ≡ (db, ok (some (key_view r)))
unfolding create_or_get with_tx create_body create_notification insert_task get_by_caller_and_key
create_or_get_again calls task event db r begun up got valid free found = ground (
  arith,
  begun,
  up,
  got,
  valid,
  free,
  found,
  All-find (has_key task.caller_id task.idempotency_key) db.tasks found,
)
