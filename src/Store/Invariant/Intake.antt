-- ===== src/Store/Invariant/Intake.antt =====
-- The creation of a task with its first event, in one transaction, keeps the invariant.
use rc_pangjiahui.Prelude.{
  Bool, true, false, ◌||◌, ◌≡◌, sym, subst, [], ◌∷◌, ◌++◌, Option, none, arith, All-imp, All-append,
  any_where, Option-cases, inl, inr, eq_iff,
}
use rc_pangjiahui.Prelude.RowLaws.{any_where-append}
use rc_pangjiahui.Prelude.DistinctRows.{DistinctBy-append}
use rc_pangjiahui.Notification.Model.{pending, Task, OutboxEvent}
use rc_pangjiahui.Store.Tables.{
  TaskRow, Db, Error, Reply, answered, refused, lost, has_id, has_key, is_for, insert_task,
  insert_event, with_tx,
}
use rc_pangjiahui.Store.Intake.{
  row_of, create_notification, event_row_of, insert_outbox, CreateCalls, create_body, create_or_get,
}
use rc_pangjiahui.Store.Shape.{RowShape}
use rc_pangjiahui.Store.Invariant.{Inv, same_task, same_key}
use rc_pangjiahui.Store.Invariant.Changes.{Awaits, insert_event-Inv}

pub insert_task-cases :
    (up : Bool) (r : TaskRow) (db : Db)
    → (insert_task up r db).1 ≡ none
    → ((insert_task up r db).0 ≡ record db { tasks = db.tasks ++ r ∷ [] })
      × (any_where (has_id r.id) db.tasks ≡ false)
      × (any_where (has_key r.caller_id r.idempotency_key) db.tasks ≡ false)
unfolding insert_task
insert_task-cases up r db h = ground arith

-- A new task and the event that it waits for.
pub record IsFresh (task : Task) (event : OutboxEvent) : Type 0 where
  pub starts : task.status ≡ pending
  pub about : event.aggregate_id ≡ task.id
  pub first : event.generation ≡ task.generation

row_of-shape : (task : Task) → task.status ≡ pending → RowShape (row_of task)
row_of-shape task h = ground arith

inserted-Awaits :
    (task : Task) (event : OutboxEvent) (db : Db)
    → IsFresh task event
    → Inv db
    → any_where (has_id task.id) db.tasks ≡ false
    → any_where (has_key task.caller_id task.idempotency_key) db.tasks ≡ false
    → Awaits (record db { tasks = db.tasks ++ row_of task ∷ [] }) (event_row_of event)
unfolding any_where
inserted-Awaits task event db fresh inv new_id new_key = record {
  shapes =
      All-append RowShape db.tasks (row_of task ∷ []) inv.shapes
        (row_of-shape task fresh.starts, tt);
  unique_ids = DistinctBy-append same_task db.tasks (row_of task) new_id inv.unique_ids;
  unique_keys = DistinctBy-append same_key db.tasks (row_of task) new_key inv.unique_keys;
  unique_events = inv.unique_events;
  unique_generations = inv.unique_generations;
  owned =
      All-imp (λ e. any_where (has_id e.aggregate_id) db.tasks ≡ true)
        (λ e. any_where (has_id e.aggregate_id) (db.tasks ++ row_of task ∷ []) ≡ true)
        (λ e q.
          ground (arith, q, any_where-append (has_id e.aggregate_id) db.tasks (row_of task ∷ [])))
        db.events inv.owned;
  covered_by =
      All-append
        (λ r.
          (any_where (is_for r.id r.generation) db.events
            || is_for r.id r.generation (event_row_of event))
          ≡ true)
        db.tasks (row_of task ∷ [])
        (All-imp (λ r. any_where (is_for r.id r.generation) db.events ≡ true)
          (λ r.
            (any_where (is_for r.id r.generation) db.events
              || is_for r.id r.generation (event_row_of event))
            ≡ true)
          (λ r q. rw q) db.tasks inv.covered)
        (ground (arith, fresh.about, fresh.first, eq_iff event.aggregate_id task.id), tt);
}

insert_outbox-Inv :
    (up : Bool) (event : OutboxEvent) (db : Db)
    → Awaits db (event_row_of event)
    → (insert_outbox up event db).1 ≡ none
    → Inv (insert_outbox up event db).0
unfolding insert_outbox
insert_outbox-Inv up event db awaits =
    elim (Option-cases (insert_event up (event_row_of event) db).1) [
      | inr (x, failed) ↦ rw (failed, insert_outbox) (λ e. cc)
      | inl fine ↦
          rw (fine, insert_outbox) (λ _. insert_event-Inv up (event_row_of event) db awaits fine)
    ]

pub create_notification-cases :
    (up : Bool) (task : Task) (db : Db)
    → (create_notification up task db).1 ≡ none
    → ((create_notification up task db).0 ≡ record db { tasks = db.tasks ++ row_of task ∷ [] })
      × (any_where (has_id task.id) db.tasks ≡ false)
      × (any_where (has_key task.caller_id task.idempotency_key) db.tasks ≡ false)
unfolding create_notification
create_notification-cases up task db h = ground (arith, insert_task-cases up (row_of task) db)

-- The body of the transaction, if it succeeds.
create_body-Inv :
    (calls : CreateCalls) (task : Task) (event : OutboxEvent) (db : Db)
    → IsFresh task event
    → Inv db
    → (create_body calls task event db).1 ≡ none
    → Inv (create_body calls task event db).0
unfolding create_body
create_body-Inv calls task event db fresh inv =
    elim (Option-cases (create_notification calls.task_up task db).1) [
      | inr (x, failed) ↦ rw (failed, create_body) (λ e. cc)
      | inl fine ↦
          let (after, new_id, new_key) = create_notification-cases calls.task_up task db fine in
          rw (fine, create_body, after)
            (insert_outbox-Inv calls.event_up event
              (record db { tasks = db.tasks ++ row_of task ∷ [] })
              (inserted-Awaits task event db fresh inv new_id new_key))
    ]

-- What holds before a transaction and after its body, if that succeeds, holds after it.
pub with_tx_keeps :
    (P : Db → Type 0) (up : Bool) (commit : Reply) (body : Db → Db × Option Error) (db : Db)
    → P db
    → ((body db).1 ≡ none → P (body db).0)
    → P (with_tx up commit body db).0
unfolding with_tx
with_tx_keeps P false commit body db before after = before
with_tx_keeps P true answered body db before after = elim (Option-cases (body db).1) [
  | inr (e, failed) ↦ rw failed before
  | inl fine ↦ rw fine (after fine)
]
with_tx_keeps P true refused body db before after = elim (Option-cases (body db).1) [
  | inr (e, failed) ↦ rw failed before
  | inl fine ↦ rw fine (before)
]
with_tx_keeps P true lost body db before after = elim (Option-cases (body db).1) [
  | inr (e, failed) ↦ rw failed before
  | inl fine ↦ rw fine (after fine)
]

pub create_or_get-db :
    (calls : CreateCalls) (task : Task) (event : OutboxEvent) (db : Db)
    → (create_or_get calls task event db).0
      ≡ (with_tx calls.begin_up calls.commit (create_body calls task event) db).0
unfolding create_or_get
create_or_get-db calls task event db = ground arith

-- CreateOrGet keeps the invariant on every path: a new task appears together with its first event,
-- or neither does.
pub create_or_get-Inv :
    (calls : CreateCalls) (task : Task) (event : OutboxEvent) (db : Db)
    → IsFresh task event
    → Inv db
    → Inv (create_or_get calls task event db).0
create_or_get-Inv calls task event db fresh inv =
    subst Inv (sym (create_or_get-db calls task event db)) (
      with_tx_keeps Inv calls.begin_up calls.commit (create_body calls task event) db inv
        (create_body-Inv calls task event db fresh inv))
