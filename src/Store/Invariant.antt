-- ===== src/Store/Invariant.antt =====
-- What holds of the tables between two transactions of internal/store/postgres.
pub mod Changes
pub mod Intake
pub mod Claims
pub mod Rounds
pub mod Schedule
pub mod Removal
use rc_pangjiahui.Prelude.{Bool, true, false, ◌&&◌, ◌==◌, ◌=ₛ◌, ◌≡◌, List, All, any_where}
use rc_pangjiahui.Prelude.DistinctRows.{DistinctBy}
use rc_pangjiahui.Store.Tables.{TaskRow, EventRow, Db, has_id, is_for}
use rc_pangjiahui.Store.Shape.{RowShape}

abbrev pub same_task : TaskRow → TaskRow → Bool
same_task a b = a.id =ₛ b.id

abbrev pub same_key : TaskRow → TaskRow → Bool
same_key a b = a.caller_id =ₛ b.caller_id && a.idempotency_key =ₛ b.idempotency_key

abbrev pub same_event : EventRow → EventRow → Bool
same_event a b = a.id =ₛ b.id

abbrev pub same_generation : EventRow → EventRow → Bool
same_generation a b = a.aggregate_id =ₛ b.aggregate_id && a.generation == b.generation

-- Each event is for a task of the table.
abbrev pub Owned : List EventRow → List TaskRow → Type 0
Owned events tasks = All (λ e. any_where (has_id e.aggregate_id) tasks ≡ true) events

-- Each task has an event for its generation.
abbrev pub Covered : List TaskRow → List EventRow → Type 0
Covered tasks events = All (λ r. any_where (is_for r.id r.generation) events ≡ true) tasks

pub record Inv (db : Db) : Type 0 where
  pub shapes : All RowShape db.tasks
  pub unique_ids : DistinctBy same_task db.tasks
  pub unique_keys : DistinctBy same_key db.tasks
  pub unique_events : DistinctBy same_event db.events
  pub unique_generations : DistinctBy same_generation db.events
  pub owned : Owned db.events db.tasks
  pub covered : Covered db.tasks db.events
