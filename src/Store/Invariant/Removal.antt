-- ===== src/Store/Invariant/Removal.antt =====
-- The retention keeps the invariant: with a task go its events, and with no other.
use rc_pangjiahui.Prelude.{
  ℕ, Bool, true, not, ◌≡◌, ◌∙◌, ap, List, arith, eq_iff, any_where, select_where,
}
use rc_pangjiahui.Prelude.RowLaws.{All-select_where, All-select_into, any_where-select_where}
use rc_pangjiahui.Prelude.DistinctRows.{DistinctBy-select_where}
use rc_pangjiahui.Notification.Model.{Time}
use rc_pangjiahui.Store.Tables.{TaskRow, EventRow, Db, Reply, has_id, is_for}
use rc_pangjiahui.Store.Outbox.{Engine}
use rc_pangjiahui.Store.Schedule.{is_named, expired_candidates, delete_terminal_before}
use rc_pangjiahui.Store.Shape.{RowShape}
use rc_pangjiahui.Store.Invariant.{Inv, same_task, same_key, same_event, same_generation}
use rc_pangjiahui.Store.Invariant.Claims.{reply_keeps}

module _ (gone : List TaskRow) where
  stays : TaskRow → Bool
  stays r = not (is_named gone r.id)

  event_stays : EventRow → Bool
  event_stays e = not (is_named gone e.aggregate_id)

  owner_stays :
      (tasks : List TaskRow) (e : EventRow)
      → event_stays e ≡ true
      → any_where (has_id e.aggregate_id) (select_where stays tasks)
        ≡ any_where (has_id e.aggregate_id) tasks
  unfolding stays event_stays
  owner_stays tasks e h =
      any_where-select_where (has_id e.aggregate_id) stays
        (λ r q. ap (λ id. not (is_named gone id)) ((eq_iff r.id e.aggregate_id).0 q) ∙ h) tasks

  cover_stays :
      (events : List EventRow) (r : TaskRow)
      → stays r ≡ true
      → any_where (is_for r.id r.generation) (select_where event_stays events)
        ≡ any_where (is_for r.id r.generation) events
  unfolding stays event_stays
  cover_stays events r h =
      any_where-select_where (is_for r.id r.generation) event_stays
        (λ e q.
          ap (λ id. not (is_named gone id)) ((eq_iff e.aggregate_id r.id).0 (ground (arith, q)))
          ∙ h)
        events

  removal-Inv :
      (db : Db)
      → Inv db
      → Inv (record {
        tasks = select_where stays db.tasks;
        events = select_where event_stays db.events;
      })
  removal-Inv db inv = record {
    shapes = All-select_where RowShape stays db.tasks inv.shapes;
    unique_ids = DistinctBy-select_where same_task stays db.tasks inv.unique_ids;
    unique_keys = DistinctBy-select_where same_key stays db.tasks inv.unique_keys;
    unique_events = DistinctBy-select_where same_event event_stays db.events inv.unique_events;
    unique_generations =
        DistinctBy-select_where same_generation event_stays db.events inv.unique_generations;
    owned =
        All-select_into (λ e. any_where (has_id e.aggregate_id) db.tasks ≡ true)
          (λ e. any_where (has_id e.aggregate_id) (select_where stays db.tasks) ≡ true) event_stays
          (λ e h q. owner_stays db.tasks e h ∙ q) db.events inv.owned;
    covered =
        All-select_into (λ r. any_where (is_for r.id r.generation) db.events ≡ true)
          (λ r. any_where (is_for r.id r.generation) (select_where event_stays db.events) ≡ true)
          stays (λ r h q. cover_stays db.events r h ∙ q) db.tasks inv.covered;
  }

-- The retention keeps the invariant, whatever the server makes of its statement.
pub delete_terminal_before-Inv :
    (call : Reply) (engine : Engine) (cutoff : Time) (limit : ℕ) (db : Db)
    → Inv db
    → Inv (delete_terminal_before call engine cutoff limit db).0
unfolding delete_terminal_before stays event_stays
delete_terminal_before-Inv call engine cutoff limit db inv =
    reply_keeps Inv call "delete terminal notifications" db _ _ inv
      (removal-Inv (expired_candidates engine cutoff limit db) db inv)
