-- ===== src/Store/Invariant/Rounds.antt =====
-- One round of the scheduler: what holds of the tables between two rounds.
use rc_pangjiahui.Prelude.{
  ℕ, ◌+◌, String, true, false, ◌≡◌, ◌⊎◌, refl, sym, subst, List, [], ◌∷◌, ◌++◌, some, arith, All,
  All-append, eq_iff, update_where, any_where, Bool-cases, Option-cases, inl, inr,
}
use rc_pangjiahui.Prelude.RowLaws.{All-update_where, All-update_into}
use rc_pangjiahui.Prelude.DistinctRows.{DistinctBy, DistinctBy-append}
use rc_pangjiahui.Notification.Model.{Time, ScheduleResult}
use rc_pangjiahui.Store.Tables.{TaskRow, EventRow, Db, ok, has_id, is_for, event_has_id}
use rc_pangjiahui.Store.Query.{ready_event}
use rc_pangjiahui.Store.Schedule.{
  ScheduleCalls, is_exhausted, dead_row, retry_row, recovery_code, insert_or_skip, schedule_one,
}
use rc_pangjiahui.Store.Invariant.{same_task, same_key, same_event, same_generation, Owned, Covered}
use rc_pangjiahui.Store.Invariant.Changes.{
  KeepsKeys, update-unique_ids, update-unique_keys, update-Owned, update-has_id, Covered-append,
  append_found,
}

-- The part of the invariant that each round of the loop keeps.
pub record Linked (db : Db) : Type 0 where
  pub unique_ids : DistinctBy same_task db.tasks
  pub unique_keys : DistinctBy same_key db.tasks
  pub unique_events : DistinctBy same_event db.events
  pub unique_generations : DistinctBy same_generation db.events
  pub owned : Owned db.events db.tasks
  pub covered : Covered db.tasks db.events

dead_row-keys : (now : Time) → KeepsKeys (dead_row now)
dead_row-keys now = record {
  same_id = λ r. refl;
  same_caller = λ r. refl;
  same_idempotency_key = λ r. refl;
}

retry_row-keys :
    (generation : ℕ) (now : Time) (code : String) → KeepsKeys (retry_row generation now code)
retry_row-keys generation now code = record {
  same_id = λ r. refl;
  same_caller = λ r. refl;
  same_idempotency_key = λ r. refl;
}

-- The insertion either finds the generation's event there or adds it.
pub insert_or_skip-cases :
    (e : EventRow) (events events' : List EventRow)
    → insert_or_skip e events ≡ some events'
    → ((events' ≡ events) × (any_where (is_for e.aggregate_id e.generation) events ≡ true))
      ⊎ ((events' ≡ events ++ e ∷ [])
          × (any_where (is_for e.aggregate_id e.generation) events ≡ false)
          × (any_where (event_has_id e.id) events ≡ false))
unfolding insert_or_skip
insert_or_skip-cases e events events' h = ground arith

died-Linked :
    (now : Time) (item : TaskRow) (db : Db)
    → Linked db
    → Linked (record db { tasks = update_where (has_id item.id) (dead_row now) db.tasks })
died-Linked now item db l = record {
  unique_ids =
      update-unique_ids (has_id item.id) (dead_row now) (dead_row-keys now) db.tasks l.unique_ids;
  unique_keys =
      update-unique_keys (has_id item.id) (dead_row now) (dead_row-keys now) db.tasks l.unique_keys;
  unique_events = l.unique_events;
  unique_generations = l.unique_generations;
  owned =
      update-Owned (has_id item.id) (dead_row now) (dead_row-keys now) db.events db.tasks l.owned;
  covered =
      All-update_where (λ r. any_where (is_for r.id r.generation) db.events ≡ true) (has_id item.id)
        (dead_row now) (λ r _ q. q) db.tasks l.covered;
}

-- The tasks after a change to a new generation, with any events that hold the old ones and the new.
retried-Covered :
    (generation : ℕ) (now : Time) (code : String) (id : String) (tasks : List TaskRow)
    (events' : List EventRow)
    → Covered tasks events'
    → any_where (is_for id generation) events' ≡ true
    → Covered (update_where (has_id id) (retry_row generation now code) tasks) events'
retried-Covered generation now code id tasks events' c new =
    All-update_into (λ r. any_where (is_for r.id r.generation) events' ≡ true)
      (λ r. any_where (is_for r.id r.generation) events' ≡ true) (has_id id)
      (retry_row generation now code)
      (λ r e _.
        subst (λ i. any_where (is_for i generation) events' ≡ true) (sym ((eq_iff r.id id).0 e))
          new)
      (λ r _ q. q) tasks c

-- The events after the insertion, with the tasks as they were.
record Extended (e : EventRow) (tasks : List TaskRow) (events : List EventRow) : Type 0 where
  unique_events : DistinctBy same_event events
  unique_generations : DistinctBy same_generation events
  owned : Owned events tasks
  covered : Covered tasks events
  found : any_where (is_for e.aggregate_id e.generation) events ≡ true

insert_or_skip-Extended :
    (e : EventRow) (db : Db) (events' : List EventRow)
    → insert_or_skip e db.events ≡ some events'
    → any_where (has_id e.aggregate_id) db.tasks ≡ true
    → Linked db
    → Extended e db.tasks events'
insert_or_skip-Extended e db events' h owner l = elim (insert_or_skip-cases e db.events events' h) [
  | inl (same, found) ↦ rw same (record {
    unique_events = l.unique_events;
    unique_generations = l.unique_generations;
    owned = l.owned;
    covered = l.covered;
    found = found;
  })
  | inr (added, new_generation, new_id) ↦ rw added (record {
    unique_events = DistinctBy-append same_event db.events e new_id l.unique_events;
    unique_generations =
        DistinctBy-append same_generation db.events e new_generation l.unique_generations;
    owned =
        All-append (λ x. any_where (has_id x.aggregate_id) db.tasks ≡ true) db.events (e ∷ [])
          l.owned (owner, tt);
    covered = Covered-append db.tasks db.events e l.covered;
    found = append_found db.events e;
  })
]

retried-Linked :
    (now : Time) (code : String) (e : EventRow) (db : Db) (events' : List EventRow)
    → insert_or_skip e db.events ≡ some events'
    → any_where (has_id e.aggregate_id) db.tasks ≡ true
    → Linked db
    → Linked (record {
      tasks = update_where (has_id e.aggregate_id) (retry_row e.generation now code) db.tasks;
      events = events';
    })
retried-Linked now code e db events' h owner l =
    let x = insert_or_skip-Extended e db events' h owner l in
    let f = retry_row e.generation now code in
    let k = retry_row-keys e.generation now code in
    record {
      unique_ids = update-unique_ids (has_id e.aggregate_id) f k db.tasks l.unique_ids;
      unique_keys = update-unique_keys (has_id e.aggregate_id) f k db.tasks l.unique_keys;
      unique_events = x.unique_events;
      unique_generations = x.unique_generations;
      owned = update-Owned (has_id e.aggregate_id) f k events' db.tasks x.owned;
      covered =
          retried-Covered e.generation now code e.aggregate_id db.tasks events' x.covered x.found;
    }

-- Every candidate is in the table.
abbrev pub Present : List TaskRow → List TaskRow → Type 0
Present items tasks = All (λ item. any_where (has_id item.id) tasks ≡ true) items

-- One round: its tables, either with the task dead or with the task pending and its event there.
pub schedule_one-cases :
    (calls : ScheduleCalls) (now : Time) (item : TaskRow) (s t : Db × ScheduleResult)
    → schedule_one calls now item s ≡ ok t
    → (t.0 ≡ record s.0 { tasks = update_where (has_id item.id) (dead_row now) s.0.tasks })
      ⊎ ((events : List EventRow) × (insert_or_skip
              (ready_event
                (calls.digest item.id (item.generation + 1))
                item.id
                (item.generation + 1)
                (("notification_id", item.id) ∷ [])
                now)
              s.0.events
            ≡ some events)
          × (t.0 ≡ record {
            tasks =
                update_where
                  (has_id item.id)
                  (retry_row (item.generation + 1) now (recovery_code item))
                  s.0.tasks;
            events = events;
          }))
unfolding schedule_one
schedule_one-cases calls now item (db, r) t e = elim (Bool-cases (calls.exec_up item.id)) [
  | inr down ↦ absurd (ground (arith, e, down))
  | inl up ↦ elim (Bool-cases (is_exhausted now item)) [
    | inl over ↦ inl (ground (arith, e, up, over))
    | inr left ↦ elim (Option-cases (insert_or_skip event db.events)) [
      | inl failed ↦ absurd (ground (arith, e, up, left, failed))
      | inr (events, fine) ↦ inr (events, fine, ground (arith, e, up, left, fine))
    ]
  ]
]
  where
    event : EventRow
    event =
        ready_event (calls.digest item.id (item.generation + 1)) item.id (item.generation + 1)
          (("notification_id", item.id) ∷ []) now

pub schedule_one-Linked :
    (calls : ScheduleCalls) (now : Time) (item : TaskRow) (s t : Db × ScheduleResult)
    → schedule_one calls now item s ≡ ok t
    → any_where (has_id item.id) s.0.tasks ≡ true
    → Linked s.0
    → Linked t.0
      × ((id : String) → any_where (has_id id) t.0.tasks ≡ any_where (has_id id) s.0.tasks)
schedule_one-Linked calls now item s t e owner l = elim (schedule_one-cases calls now item s t e) [
  | inl died ↦ rw died (
    died-Linked now item s.0 l,
    λ id. update-has_id (has_id item.id) (dead_row now) (dead_row-keys now) id s.0.tasks,
  )
  | inr (events, fine, retried) ↦ rw retried (
    retried-Linked now (recovery_code item)
        (ready_event (calls.digest item.id (item.generation + 1)) item.id (item.generation + 1)
          (("notification_id", item.id) ∷ []) now)
        s.0 events fine owner l,
    λ id.
        update-has_id (has_id item.id) (retry_row (item.generation + 1) now (recovery_code item))
          (retry_row-keys (item.generation + 1) now (recovery_code item)) id s.0.tasks,
  )
]
