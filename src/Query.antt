-- ===== src/Query.antt =====
-- internal/notification/query.go: what a caller sees of its task, and the replay by an operator.
pub mod Laws
use rc_pangjiahui.Prelude.{ℕ, String, Bool, Option, if◌then◌else◌}
use rc_pangjiahui.Notification.Model.{Time, Status, Task}
use rc_pangjiahui.Store.Tables.{Error, not_dead, other, Fallible, ok, err}

pub record View : Type 0 where
  pub id : String
  pub destination_id : String
  pub status : Status
  pub attempt_count : ℕ
  pub next_attempt_at : Option Time
  pub last_http_status : ℕ
  pub last_error_code : String
  pub last_error : String
  pub created_at : Time
  pub updated_at : Time
  pub delivered_at : Option Time
  pub dead_at : Option Time

-- The methods of QueryRepository over a state `S`.
pub record QueryRepository (S : Type 0) : Type 0 where
  pub get_for_caller : String → String → S → Fallible Task
  pub replay_dead_atomic : String → Time → String → S → S × Fallible Bool

abbrev pub view_of : Task → View
view_of task = record {
  id = task.id;
  destination_id = task.snapshot.destination_id;
  status = task.status;
  attempt_count = task.attempt_count;
  next_attempt_at = task.next_attempt_at;
  last_http_status = task.last_http_status;
  last_error_code = task.last_error_code;
  last_error = task.last_error;
  created_at = task.created_at;
  updated_at = task.updated_at;
  delivered_at = task.delivered_at;
  dead_at = task.dead_at;
}

module _ {S : Type 0} (repository : QueryRepository S) where
  unfoldable pub get : String → String → S → Fallible View
  get caller id s = elim (repository.get_for_caller caller id s) [
    | err e ↦ err e
    | ok task ↦ ok (view_of task)
  ]

  -- `now` and `event_id` are what the clock and the generator of identifiers give.
  unfoldable pub replay : Time → String → String → S → S × Option Error
  replay now event_id id s =
      let (s', replayed) = repository.replay_dead_atomic id now event_id s in
      elim replayed [
        | err e ↦ (s', Option.some (other "replay notification"))
        | ok applied ↦ (s', if applied then Option.none else Option.some not_dead)
      ]
