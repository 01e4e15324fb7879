-- ===== src/Store/Invariant/Changes.antt =====
-- Changes of rows, and insertions, that keep the invariant of the tables.
use rc_pangjiahui.Prelude.{
  String, Bool, true, false, ◌||◌, ◌=ₛ◌, ◌≡◌, sym, ap, ◌∙◌, subst, List, [], none, ◌∷◌, ◌++◌, All,
  All-imp, All-append, arith, eq_iff, update_where, any_where,
}
use rc_pangjiahui.Prelude.RowLaws.{All-update_where, any_where-update_where, any_where-append}
use rc_pangjiahui.Prelude.DistinctRows.{DistinctBy, DistinctBy-update_where, DistinctBy-append}
use rc_pangjiahui.Store.Tables.{TaskRow, EventRow, Db, has_id, event_has_id, is_for, insert_event}
use rc_pangjiahui.Store.Shape.{RowShape}
use rc_pangjiahui.Store.Invariant.{
  same_task, same_key, same_event, same_generation, Owned, Covered, Inv,
}

-- A change of tasks that keeps what identifies them.
pub record KeepsKeys (f : TaskRow → TaskRow) : Type 0 where
  pub same_id : (r : TaskRow) → (f r).id ≡ r.id
  pub same_caller : (r : TaskRow) → (f r).caller_id ≡ r.caller_id
  pub same_idempotency_key : (r : TaskRow) → (f r).idempotency_key ≡ r.idempotency_key

module _ (p : TaskRow → Bool) (f : TaskRow → TaskRow) (k : KeepsKeys f) where
  pub update-unique_ids :
      (tasks : List TaskRow)
      → DistinctBy same_task tasks
      → DistinctBy same_task (update_where p f tasks)
  update-unique_ids tasks =
      DistinctBy-update_where same_task p f (λ r s. ap (λ x. x =ₛ s.id) (k.same_id r))
        (λ r s. ap (λ x. r.id =ₛ x) (k.same_id s)) tasks

  pub update-unique_keys :
      (tasks : List TaskRow)
      → DistinctBy same_key tasks
      → DistinctBy same_key (update_where p f tasks)
  update-unique_keys tasks =
      DistinctBy-update_where same_key p f (λ r s. rw (k.same_caller r, k.same_idempotency_key r))
        (λ r s. rw (k.same_caller s, k.same_idempotency_key s)) tasks

  pub update-has_id :
      (id : String) (tasks : List TaskRow)
      → any_where (has_id id) (update_where p f tasks) ≡ any_where (has_id id) tasks
  update-has_id id tasks =
      any_where-update_where (has_id id) p f (λ r _. ap (λ x. x =ₛ id) (k.same_id r)) tasks

  pub update-Owned :
      (events : List EventRow) (tasks : List TaskRow)
      → Owned events tasks
      → Owned events (update_where p f tasks)
  update-Owned events tasks h =
      All-imp (λ e. any_where (has_id e.aggregate_id) tasks ≡ true)
        (λ e. any_where (has_id e.aggregate_id) (update_where p f tasks) ≡ true)
        (λ e q. update-has_id e.aggregate_id tasks ∙ q) events h

  -- A change that keeps the generation too.
  pub update_tasks-Inv :
      (db : Db)
      → ((r : TaskRow) → (f r).generation ≡ r.generation)
      → ((r : TaskRow) → p r ≡ true → RowShape r → RowShape (f r))
      → Inv db
      → Inv (record db { tasks = update_where p f db.tasks })
  update_tasks-Inv db g shape inv = record {
    shapes = All-update_where RowShape p f shape db.tasks inv.shapes;
    unique_ids = update-unique_ids db.tasks inv.unique_ids;
    unique_keys = update-unique_keys db.tasks inv.unique_keys;
    unique_events = inv.unique_events;
    unique_generations = inv.unique_generations;
    owned = update-Owned db.events db.tasks inv.owned;
    covered =
        All-update_where (λ r. any_where (is_for r.id r.generation) db.events ≡ true) p f
          (λ r _ q. rw (k.same_id r, g r) q) db.tasks inv.covered;
  }

-- A change of events that keeps what identifies them.
pub record KeepsEvent (f : EventRow → EventRow) : Type 0 where
  pub same_id : (e : EventRow) → (f e).id ≡ e.id
  pub same_aggregate : (e : EventRow) → (f e).aggregate_id ≡ e.aggregate_id
  pub same_number : (e : EventRow) → (f e).generation ≡ e.generation

pub update_events-Inv :
    (p : EventRow → Bool) (f : EventRow → EventRow) (k : KeepsEvent f) (db : Db)
    → Inv db
    → Inv (record db { events = update_where p f db.events })
update_events-Inv p f k db inv = record {
  shapes = inv.shapes;
  unique_ids = inv.unique_ids;
  unique_keys = inv.unique_keys;
  unique_events =
      DistinctBy-update_where same_event p f (λ r s. ap (λ x. x =ₛ s.id) (k.same_id r))
        (λ r s. ap (λ x. r.id =ₛ x) (k.same_id s)) db.events inv.unique_events;
  unique_generations =
      DistinctBy-update_where same_generation p f (λ r s. rw (k.same_aggregate r, k.same_number r))
        (λ r s. rw (k.same_aggregate s, k.same_number s)) db.events inv.unique_generations;
  owned =
      All-update_where (λ e. any_where (has_id e.aggregate_id) db.tasks ≡ true) p f
        (λ e _ q. rw (k.same_aggregate e) q) db.events inv.owned;
  covered =
      All-imp (λ r. any_where (is_for r.id r.generation) db.events ≡ true)
        (λ r. any_where (is_for r.id r.generation) (update_where p f db.events) ≡ true)
        (λ r q.
          any_where-update_where (is_for r.id r.generation) p f
            (λ e _. rw (k.same_aggregate e, k.same_number e)) db.events
          ∙ q)
        db.tasks inv.covered;
}

-- Tasks that have their event keep it when events are added.
pub Covered-append :
    (tasks : List TaskRow) (events : List EventRow) (e : EventRow)
    → Covered tasks events
    → Covered tasks (events ++ e ∷ [])
Covered-append tasks events e h =
    All-imp (λ r. any_where (is_for r.id r.generation) events ≡ true)
      (λ r. any_where (is_for r.id r.generation) (events ++ e ∷ []) ≡ true)
      (λ r q. ground (arith, q, any_where-append (is_for r.id r.generation) events (e ∷ []))) tasks
      h

-- The event that was added is found.
pub append_found :
    (events : List EventRow) (e : EventRow)
    → any_where (is_for e.aggregate_id e.generation) (events ++ e ∷ []) ≡ true
unfolding any_where
append_found events e = ground (
  arith,
  any_where-append (is_for e.aggregate_id e.generation) events (e ∷ []),
  eq_iff e.aggregate_id e.aggregate_id,
)

-- An event that was inserted was new, valid, and for a task of the table.
pub insert_event-cases :
    (up : Bool) (e : EventRow) (db : Db)
    → (insert_event up e db).1 ≡ none
    → ((insert_event up e db).0 ≡ record db { events = db.events ++ e ∷ [] })
      × (any_where (event_has_id e.id) db.events ≡ false)
      × (any_where (is_for e.aggregate_id e.generation) db.events ≡ false)
      × (any_where (has_id e.aggregate_id) db.tasks ≡ true)
unfolding insert_event
insert_event-cases up e db h = ground arith

-- The tables before the insertion of an event: all of the invariant, but a task may be covered only
-- by the event to come.
pub record Awaits (db : Db) (e : EventRow) : Type 0 where
  pub shapes : All RowShape db.tasks
  pub unique_ids : DistinctBy same_task db.tasks
  pub unique_keys : DistinctBy same_key db.tasks
  pub unique_events : DistinctBy same_event db.events
  pub unique_generations : DistinctBy same_generation db.events
  pub owned : Owned db.events db.tasks
  pub covered_by :
      All
        (λ r. (any_where (is_for r.id r.generation) db.events || is_for r.id r.generation e) ≡ true)
        db.tasks

-- The insertion of the event that the tables await restores the invariant.
pub added-Inv :
    (db : Db) (e : EventRow)
    → Awaits db e
    → any_where (event_has_id e.id) db.events ≡ false
    → any_where (is_for e.aggregate_id e.generation) db.events ≡ false
    → any_where (has_id e.aggregate_id) db.tasks ≡ true
    → Inv (record db { events = db.events ++ e ∷ [] })
unfolding any_where
added-Inv db e w new_id new_generation owner = record {
  shapes = w.shapes;
  unique_ids = w.unique_ids;
  unique_keys = w.unique_keys;
  unique_events = DistinctBy-append same_event db.events e new_id w.unique_events;
  unique_generations =
      DistinctBy-append same_generation db.events e new_generation w.unique_generations;
  owned =
      All-append (λ x. any_where (has_id x.aggregate_id) db.tasks ≡ true) db.events (e ∷ []) w.owned
        (owner, tt);
  covered =
      All-imp
        (λ r. (any_where (is_for r.id r.generation) db.events || is_for r.id r.generation e) ≡ true)
        (λ r. any_where (is_for r.id r.generation) (db.events ++ e ∷ []) ≡ true)
        (λ r q. ground (arith, q, any_where-append (is_for r.id r.generation) db.events (e ∷ [])))
        db.tasks w.covered_by;
}

pub insert_event-Inv :
    (up : Bool) (e : EventRow) (db : Db)
    → Awaits db e
    → (insert_event up e db).1 ≡ none
    → Inv (insert_event up e db).0
insert_event-Inv up e db w h =
    let (after, new_id, new_generation, owner) = insert_event-cases up e db h in
    subst Inv (sym after) (added-Inv db e w new_id new_generation owner)
