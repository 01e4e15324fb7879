-- ===== src/Query/Laws.antt =====
-- What the two services of internal/notification/query.go do over the store.
use rc_pangjiahui.Prelude.{
  ℕ, ◌+◌, String, Bool, true, false, ◌≡◌, ◌∙◌, none, some, [], ◌∷◌, ◌++◌, arith, eq_iff,
  update_where, find_where, any_where, Option-cases, inl, inr,
}
use rc_pangjiahui.Prelude.RowLaws.{find_where-passes, find_where-absent}
use rc_pangjiahui.Notification.Model.{Time}
use rc_pangjiahui.Store.Tables.{TaskRow, Db, not_dead, ok, answered}
use rc_pangjiahui.Store.Query.{
  caller_view, is_owned, get_for_caller, is_dead, replay_row, ready_event, TxCalls, replay_body,
  replay_dead_atomic,
}
use rc_pangjiahui.Store.Invariant.Changes.{insert_event-cases}
use rc_pangjiahui.Query.{View, QueryRepository, view_of, get, replay}

abbrev pub repository : Bool → TxCalls → QueryRepository Db
repository up calls = record {
  get_for_caller = λ caller id db. get_for_caller up caller id db;
  replay_dead_atomic = λ id now event_id db. replay_dead_atomic calls id now event_id db;
}

-- A caller sees a task only if it is its own: the view is of the row with the asked identifier and
-- the caller's name.
pub get_own :
    (calls : TxCalls) (caller id : String) (db : Db) (view : View)
    → get (repository true calls) caller id db ≡ ok view
    → (r : TaskRow) × (find_where (is_owned id caller) db.tasks ≡ some r)
      × (r.id ≡ id)
      × (r.caller_id ≡ caller)
      × (view ≡ view_of (caller_view r))
unfolding get get_for_caller
get_own calls caller id db view h = elim (Option-cases (find_where (is_owned id caller) db.tasks)) [
  | inl missing ↦ absurd (ground (arith, h, missing))
  | inr (r, found) ↦
      let passes = find_where-passes (is_owned id caller) db.tasks found in
      (
        r,
        found,
        ground (arith, passes, eq_iff r.id id),
        ground (arith, passes, eq_iff r.caller_id caller),
        ground (arith, h, found),
      )
]

-- The tables after the replay of a task in a generation.
abbrev pub replayed : String → Time → String → ℕ → Db → Db
replayed event_id now id generation db = record {
  tasks = update_where (is_dead id) (replay_row now) db.tasks;
  events = db.events ++ ready_event event_id id generation (("notification_id", id) ∷ []) now ∷ [];
}

replay_body-cases :
    (calls : TxCalls) (id : String) (now : Time) (event_id : String) (db : Db)
    → (replay_body calls id now event_id db).1 ≡ ok true
    → (r : TaskRow) × (find_where (is_dead id) db.tasks ≡ some r)
      × ((replay_body calls id now event_id db).0 ≡ replayed event_id now id (r.generation + 1) db)
unfolding replay_body
replay_body-cases calls id now event_id db h =
    elim (Option-cases (find_where (is_dead id) db.tasks)) [
      | inl missing ↦ absurd (ground (arith, h, missing))
      | inr (r, found) ↦ (
        r,
        found,
        ground (
          arith,
          h,
          found,
          insert_event-cases calls.insert_up
              (ready_event event_id id (r.generation + 1) (("notification_id", id) ∷ []) now)
              (record db { tasks = update_where (is_dead id) (replay_row now) db.tasks }),
        ),
      )
    ]

replay_dead_atomic-true :
    (calls : TxCalls) (id : String) (now : Time) (event_id : String) (db : Db)
    → (replay_dead_atomic calls id now event_id db).1 ≡ ok true
    → ((replay_body calls id now event_id db).1 ≡ ok true)
      × ((replay_dead_atomic calls id now event_id db).0 ≡ (replay_body calls id now event_id db).0)
      × (calls.commit ≡ answered)
unfolding replay_dead_atomic
replay_dead_atomic-true calls id now event_id db h = ground arith

replay_dead_atomic-none :
    (calls : TxCalls) (id : String) (now : Time) (event_id : String) (db : Db)
    → any_where (is_dead id) db.tasks ≡ false
    → calls.begin_up ≡ true
    → calls.update_up ≡ true
    → replay_dead_atomic calls id now event_id db ≡ (db, ok false)
unfolding replay_dead_atomic replay_body
replay_dead_atomic-none calls id now event_id db h begun up =
    ground (arith, begun, up, find_where-absent (is_dead id) db.tasks h)

-- An operator who hears of no error has made a dead task pending: the tables have the task under the
-- next generation and one event more, which asks for its delivery, and the commit was answered.
pub replay_revives :
    (calls : TxCalls) (now : Time) (event_id id : String) (db : Db)
    → (replay (repository true calls) now event_id id db).1 ≡ none
    → (r : TaskRow) × (find_where (is_dead id) db.tasks ≡ some r)
      × ((replay (repository true calls) now event_id id db).0
          ≡ replayed event_id now id (r.generation + 1) db)
      × (calls.commit ≡ answered)
unfolding replay
replay_revives calls now event_id id db h =
    let applied : (replay_dead_atomic calls id now event_id db).1 ≡ ok true = ground (arith, h) in
    let (body, same, committed) = replay_dead_atomic-true calls id now event_id db applied in
    let (r, found, after) = replay_body-cases calls id now event_id db body in
    (r, found, ground (arith, applied) ∙ same ∙ after, committed)

-- If no task under the identifier is dead and the server answers, the replay leaves the tables as
-- they are, and the operator is told so.
pub replay_refused :
    (calls : TxCalls) (now : Time) (event_id id : String) (db : Db)
    → any_where (is_dead id) db.tasks ≡ false
    → calls.begin_up ≡ true
    → calls.update_up ≡ true
    → replay (repository true calls) now event_id id db ≡ (db, some not_dead)
unfolding replay
replay_refused calls now event_id id db h begun up =
    ground (arith, replay_dead_atomic-none calls id now event_id db h begun up)
