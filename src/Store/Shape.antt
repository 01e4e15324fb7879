-- ===== src/Store/Shape.antt =====
-- Which columns of a task are set in which status, and how a statement may move a task.
use rc_pangjiahui.Prelude.{ℕ, String, true, ◌≡◌, arith, is_some}
use rc_pangjiahui.Notification.Model.{
  Time, Status, delivering, retry_wait, dead, same_status, retryable, AttemptResult,
}
use rc_pangjiahui.Store.Tables.{TaskRow}
use rc_pangjiahui.Store.Query.{is_dead, replay_row}
use rc_pangjiahui.Store.Delivery.{is_pending, claim_row, result_row}
use rc_pangjiahui.Store.Schedule.{is_due, dead_row, retry_row}

-- A lease is held exactly while a delivery runs, a next attempt is set exactly while the task waits
-- for it, and the time of the delivery or of the death exactly when the task is there.
pub record RowShape (r : TaskRow) : Type 0 where
  pub leased : is_some r.lease_token ≡ same_status r.status delivering
  pub lease_ends : is_some r.lease_until ≡ same_status r.status delivering
  pub waits : is_some r.next_attempt_at ≡ same_status r.status retry_wait
  pub was_delivered : is_some r.delivered_at ≡ same_status r.status Status.delivered
  pub has_died : is_some r.dead_at ≡ same_status r.status dead

-- A result that asks for a retry says when.
abbrev pub IsComplete : AttemptResult → Type 0
IsComplete result = result.outcome ≡ retryable → is_some result.next_attempt_at ≡ true

pub claim_row-shape :
    (clock : Time) (id lease : String) (until : Time) (r : TaskRow)
    → is_pending id r ≡ true
    → RowShape r
    → RowShape (claim_row clock lease until r)
claim_row-shape clock id lease until r e s = ground arith

pub result_row-shape :
    (id lease : String) (result : AttemptResult) (r : TaskRow)
    → IsComplete result
    → RowShape (result_row result r)
result_row-shape id lease result r c = ground arith

pub replay_row-shape :
    (id : String) (now : Time) (r : TaskRow)
    → is_dead id r ≡ true
    → RowShape r
    → RowShape (replay_row now r)
replay_row-shape id now r e s = ground arith

pub dead_row-shape :
    (now : Time) (r : TaskRow) → is_due now r ≡ true → RowShape r → RowShape (dead_row now r)
dead_row-shape now r e s = ground arith

pub retry_row-shape :
    (now : Time) (generation : ℕ) (code : String) (r : TaskRow)
    → is_due now r ≡ true
    → RowShape r
    → RowShape (retry_row generation now code r)
retry_row-shape now generation code r e s = ground arith
