-- ===== src/System/Writes.antt =====
-- The transactions of internal/store/postgres keep events, tasks and messages tied together.
use rc_pangjiahui.Prelude.{
  ℕ, ◌+◌, ◌≤◌, String, true, false, not, ◌&&◌, ◌||◌, ◌≡◌, ◌=ₛ◌, refl, subst, sym, ap, some, List,
  [], ◌∷◌, ◌++◌, arith, eq_iff, inl, inr, All, All-imp, All-append, any_where, update_where,
  find_where, Bool-cases, Option-cases,
}
use rc_pangjiahui.Prelude.RowLaws.{
  All-update_where, All-update_into, All-select_where, any_where→All, find_where-passes,
}
use rc_pangjiahui.Prelude.DistinctRows.{find_where-unique_key}
use rc_pangjiahui.Notification.Model.{Time, Task, OutboxEvent, AttemptResult}
use rc_pangjiahui.Store.Tables.{TaskRow, EventRow, Db, Reply, has_id, insert_event}
use rc_pangjiahui.Store.Outbox.{
  Engine, is_unpublished, claim_event_row, is_candidate, outbox_candidates, claim_outbox,
}
use rc_pangjiahui.Store.Delivery.{
  is_pending, claim_row, claim_delivery, is_leased, result_row, result_checks,
  apply_delivery_result,
}
use rc_pangjiahui.Store.Intake.{CreateCalls, row_of, event_row_of, create_or_get}
use rc_pangjiahui.Store.Query.{
  TxCalls, is_dead, replay_row, replay_body, replay_dead_atomic, ready_event,
}
use rc_pangjiahui.Store.Schedule.{delete_terminal_before, expired_candidates, is_named}
use rc_pangjiahui.Store.Invariant.{Inv, Owned, same_task}
use rc_pangjiahui.Store.Invariant.Changes.{insert_event-cases}
use rc_pangjiahui.Store.Invariant.Claims.{reply_keeps, replay_dead_atomic_keeps}
use rc_pangjiahui.Store.Invariant.Intake.{IsFresh}
use rc_pangjiahui.Store.Intake.Atomic.{created, create_or_get_fresh}
use rc_pangjiahui.Outbox.Postgres.{announces}
use rc_pangjiahui.System.{Mail, IsUnused}
use rc_pangjiahui.System.Fits.{
  Fits, Consistent, Consistent-update, Consistent-select, Consistent-event, Consistent-task,
}

-- The broker has taken the message of each event that is marked as published.
abbrev pub Marked : Mail → List EventRow → Type 0
Marked mail events =
    All (λ e. (is_unpublished e || any_where (announces e) mail.taken) ≡ true) events

abbrev pub Held : Mail → Db → Type 0
Held mail db = Consistent mail db.tasks db.events × Marked mail db.events

module _ (mail : Mail) where
  pub claim_delivery-Held :
      (call : Reply) (clock : Time) (id lease : String) (until : Time) (db : Db)
      → Held mail db
      → Held mail (claim_delivery call clock id lease until db).0
  unfolding claim_delivery
  claim_delivery-Held call clock id lease until db h =
      reply_keeps (Held mail) call "claim delivery" db _ _ h (
        Consistent-update mail (is_pending id) (claim_row clock lease until)
            (λ r _. record { same_id = refl; grows = omega arith; anew = λ q. ground arith })
            db.tasks db.events h.0,
        h.1,
      )

  pub apply_delivery_result-Held :
      (call : Reply) (id lease : String) (result : AttemptResult) (db : Db)
      → Held mail db
      → Held mail (apply_delivery_result call id lease result db).0
  unfolding apply_delivery_result
  apply_delivery_result-Held call id lease result db h =
      elim (Bool-cases (any_where (is_leased id lease) db.tasks && not (result_checks result))) [
        | inl refused ↦ rw refused h
        | inr fine ↦ rw fine (
            reply_keeps (Held mail) call "apply delivery result" db _ _ h (
              Consistent-update mail (is_leased id lease) (result_row result)
                  (λ r _. record { same_id = refl; grows = omega arith; anew = λ q. ground arith })
                  db.tasks db.events h.0,
              h.1,
            ))
      ]

  Fits-claimed :
      (token : String) (until : Time) (e : EventRow) (r : TaskRow)
      → Fits mail e r
      → Fits mail (claim_event_row token until e) r
  Fits-claimed token until e r h = record {
    bounded = h.bounded;
    queued = h.queued;
    unclaimed = h.unclaimed;
  }

  pub claim_outbox-Held :
      (call : Reply) (engine : Engine) (now : Time) (limit : ℕ) (token : String) (until : Time)
      (db : Db)
      → Held mail db
      → Held mail (claim_outbox call engine now limit token until db).0
  unfolding claim_outbox
  claim_outbox-Held call engine now limit token until db h =
      let chosen = is_candidate (outbox_candidates engine now limit db.events) in
      reply_keeps (Held mail) call "claim outbox" db _ _ h (
        All-update_where (λ e. All (Fits mail e) db.tasks) chosen (claim_event_row token until)
            (λ e _ q.
              All-imp (Fits mail e) (Fits mail (claim_event_row token until e))
                (λ r. Fits-claimed token until e r) db.tasks q)
            db.events h.0,
        All-update_where (λ e. (is_unpublished e || any_where (announces e) mail.taken) ≡ true)
            chosen (claim_event_row token until) (λ e _ q. q) db.events h.1,
      )

  pub delete_terminal_before-Held :
      (call : Reply) (engine : Engine) (cutoff : Time) (limit : ℕ) (db : Db)
      → Held mail db
      → Held mail (delete_terminal_before call engine cutoff limit db).0
  unfolding delete_terminal_before
  delete_terminal_before-Held call engine cutoff limit db h =
      let gone = expired_candidates engine cutoff limit db in
      reply_keeps (Held mail) call "delete terminal notifications" db _ _ h (
        Consistent-select mail (λ r. not (is_named gone r.id))
            (λ e. not (is_named gone e.aggregate_id)) db.tasks db.events h.0,
        All-select_where (λ e. (is_unpublished e || any_where (announces e) mail.taken) ≡ true)
            (λ e. not (is_named gone e.aggregate_id)) db.events h.1,
      )

  -- A new event is not published.
  pub Marked-event :
      (e : EventRow) (events : List EventRow)
      → is_unpublished e ≡ true
      → Marked mail events
      → Marked mail (events ++ e ∷ [])
  Marked-event e events q h =
      All-append (λ x. (is_unpublished x || any_where (announces x) mail.taken) ≡ true) events
        (e ∷ []) h (rw q refl, tt)

  -- A task whose identifier is new is the task of no event.
  no_event :
      (id : String) (tasks : List TaskRow) (events : List EventRow)
      → any_where (has_id id) tasks ≡ false
      → Owned events tasks
      → All (λ e. (id =ₛ e.aggregate_id) ≡ false) events
  no_event id tasks events absent =
      All-imp (λ e. any_where (has_id e.aggregate_id) tasks ≡ true)
        (λ e. (id =ₛ e.aggregate_id) ≡ false)
        (λ e owned. elim (Bool-cases (id =ₛ e.aggregate_id)) [
          | inr other ↦ other
          | inl same ↦
              let e_same = (eq_iff id e.aggregate_id).0 same in
              absurd (clash id e.aggregate_id e_same absent owned)
        ])
        events
    where
      clash :
          (a b : String)
          → a ≡ b
          → any_where (has_id a) tasks ≡ false
          → any_where (has_id b) tasks ≡ true
          → ⊥
      clash a b q h k = cc

  created-Held :
      (task : Task) (event : OutboxEvent) (db : Db)
      → IsFresh task event
      → IsUnused mail event.id
      → any_where (has_id task.id) db.tasks ≡ false
      → Owned db.events db.tasks
      → Held mail db
      → Held mail (created task event db)
  created-Held task event db fresh unused new_id owned h = (
    Consistent-event mail (event_row_of event) unused (db.tasks ++ row_of task ∷ []) db.events
        (All-append (λ r. has_id event.aggregate_id r ≡ true → event.generation ≤ r.generation)
          db.tasks (row_of task ∷ [])
          (All-imp (λ r. has_id task.id r ≡ false)
            (λ r. has_id event.aggregate_id r ≡ true → event.generation ≤ r.generation)
            (λ r other q. absurd (ground (arith, other, q, fresh.about))) db.tasks
            (any_where→All (has_id task.id) db.tasks new_id))
          ((λ _. ground (arith, fresh.first)), tt))
        (Consistent-task mail (row_of task) db.tasks db.events
          (no_event task.id db.tasks db.events new_id owned) h.0),
    Marked-event (event_row_of event) db.events refl h.1,
  )

  pub create_or_get-Held :
      (calls : CreateCalls) (task : Task) (event : OutboxEvent) (db : Db)
      → IsFresh task event
      → IsUnused mail event.id
      → Owned db.events db.tasks
      → Held mail db
      → Held mail (create_or_get calls task event db).0
  create_or_get-Held calls task event db fresh unused owned h =
      elim (create_or_get_fresh calls task event db) [
        | inl same ↦ rw same h
        | inr (new, new_id) ↦ rw new (created-Held task event db fresh unused new_id owned h)
      ]

  replayed-bounds :
      (id : String) (now : Time) (db : Db) (r : TaskRow)
      → Inv db
      → find_where (is_dead id) db.tasks ≡ some r
      → All
          (λ x. has_id id x ≡ true → r.generation + 1 ≤ x.generation)
          (update_where (is_dead id) (replay_row now) db.tasks)
  replayed-bounds id now db r inv found =
      All-update_into (λ x. has_id id x ≡ true → x ≡ r)
        (λ x. has_id id x ≡ true → r.generation + 1 ≤ x.generation) (is_dead id) (replay_row now)
        (λ x _ same q. omega (arith, ap (λ (y : TaskRow). y.generation) (same q)))
        (λ x alive same q. absurd (
          ground (
            arith,
            alive,
            subst (λ y. is_dead id y ≡ true) (sym (same q))
                (find_where-passes (is_dead id) db.tasks found),
          )))
        db.tasks
        (find_where-unique_key same_task (is_dead id) (has_id id) (λ x q. ground (arith, q))
          (λ x y hx hy. ground (arith, eq_iff x.id id, eq_iff y.id id, eq_iff x.id y.id)) db.tasks
          inv.unique_ids found)

  replayed-Held :
      (id : String) (now : Time) (event_id : String) (db : Db) (r : TaskRow)
      → Inv db
      → find_where (is_dead id) db.tasks ≡ some r
      → IsUnused mail event_id
      → Held mail db
      → let event = ready_event event_id id (r.generation + 1) (("notification_id", id) ∷ []) now in
        Held mail (record {
          tasks = update_where (is_dead id) (replay_row now) db.tasks;
          events = db.events ++ event ∷ [];
        })
  replayed-Held id now event_id db r inv found unused h =
      let event = ready_event event_id id (r.generation + 1) (("notification_id", id) ∷ []) now in
      (
        Consistent-event mail event unused (update_where (is_dead id) (replay_row now) db.tasks)
            db.events (replayed-bounds id now db r inv found)
            (Consistent-update mail (is_dead id) (replay_row now)
              (λ x _. record { same_id = refl; grows = omega arith; anew = λ q. omega arith })
              db.tasks db.events h.0),
        Marked-event event db.events refl h.1,
      )

  replay_body-Held :
      (calls : TxCalls) (id : String) (now : Time) (event_id : String) (db : Db)
      → Inv db
      → IsUnused mail event_id
      → Held mail db
      → Held mail (replay_body calls id now event_id db).0
  unfolding replay_body
  replay_body-Held calls id now event_id db inv unused h = elim (Bool-cases calls.update_up) [
    | inr u ↦ rw u h
    | inl u ↦ elim (Option-cases (find_where (is_dead id) db.tasks)) [
      | inl missing ↦ rw (u, missing, replay_body) h
      | inr (r, found) ↦
          let updated = record db { tasks = update_where (is_dead id) (replay_row now) db.tasks } in
          let event =
            ready_event event_id id (r.generation + 1) (("notification_id", id) ∷ []) now in
          elim (Option-cases (insert_event calls.insert_up event updated).1) [
            | inr (x, failed) ↦ rw (u, found, replay_body, failed) h
            | inl fine ↦
                rw
                  (
                    u,
                    found,
                    replay_body,
                    fine,
                    (insert_event-cases calls.insert_up event updated fine).0,
                  )
                  (replayed-Held id now event_id db r inv found unused h)
          ]
    ]
  ]

  pub replay_dead_atomic-Held :
      (calls : TxCalls) (id : String) (now : Time) (event_id : String) (db : Db)
      → Inv db
      → IsUnused mail event_id
      → Held mail db
      → Held mail (replay_dead_atomic calls id now event_id db).0
  replay_dead_atomic-Held calls id now event_id db inv unused h =
      replay_dead_atomic_keeps (Held mail) calls id now event_id db h
        (replay_body-Held calls id now event_id db inv unused h)
