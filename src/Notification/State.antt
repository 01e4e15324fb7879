-- ===== src/Notification/State.antt =====
-- internal/notification/state.go: what an HTTP status means, and which transitions are allowed.
use rc_pangjiahui.Prelude.{
  ℕ, Bool, false, ◌&&◌, ◌||◌, ltb, leb, ◌==◌, if◌then◌else◌, ◌≡◌, ◌≤◌, ◌<◌, ◌↔◌, arith,
}
use rc_pangjiahui.Notification.Model.{
  Status, pending, delivering, retry_wait, dead, same_status, Outcome, retryable, permanent,
}

-- `failed` says whether `err` is not nil.
unfoldable pub classify_result : ℕ → Bool → Outcome
classify_result status failed =
    if failed
    then retryable
    else if leb 200 status && ltb status 300
    then Outcome.delivered
    else if status == 408 || status == 425 || status == 429
    then retryable
    else if leb 500 status && leb status 599
    then retryable
    else permanent

unfoldable pub can_transition : Status → Status → Bool
can_transition Status.pending to = same_status to delivering
can_transition Status.delivering to =
    same_status to Status.delivered || same_status to retry_wait || same_status to dead
can_transition Status.retry_wait to = same_status to pending || same_status to dead
can_transition Status.dead to = same_status to pending
can_transition Status.delivered to = false

-- A delivery counts as delivered exactly for an answer with a status of the 2xx class.
pub classify_result-delivered_iff :
    (status : ℕ) (failed : Bool)
    → (classify_result status failed ≡ Outcome.delivered)
      ↔ ((failed ≡ false) × (200 ≤ status) × (status < 300))
unfolding classify_result
classify_result-delivered_iff status failed = (λ h. ground arith, λ h. ground arith)
