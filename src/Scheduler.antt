-- ===== src/Scheduler.antt =====
-- internal/retry/service.go and internal/retention/service.go: one pass of the scheduler and one of
-- the retention.
pub mod Laws
pub mod Loop
use rc_pangjiahui.Prelude.{ℕ, String, ◌-ℤ◌, Option, none, some}
use rc_pangjiahui.Notification.Model.{Time, Duration, ScheduleResult}
use rc_pangjiahui.Store.Tables.{other, Fallible, ok, err}
use rc_pangjiahui.Store.Schedule.{no_result}

-- The methods of the two Repository interfaces over a state `S`.
pub record Repository (S : Type 0) : Type 0 where
  pub schedule_due : Time → ℕ → S → S × Fallible ScheduleResult
  pub delete_terminal_before : Time → ℕ → S → S × Fallible ℕ

module _ {S : Type 0} (repository : Repository S) where
  -- The last part is what the observer is told, if anything.
  unfoldable pub schedule_once :
      (batch_size : ℕ) (now : Time) → S → S × Fallible ScheduleResult × Option ScheduleResult
  schedule_once batch_size now s =
      let (s', result) = repository.schedule_due now batch_size s in
      elim result [
        | err e ↦ (s', err (other "schedule due notifications"), none)
        | ok r ↦ (s', ok r, some r)
      ]

  unfoldable pub remove_once :
      (retention : Duration) (batch_size : ℕ) (now : Time) → S → S × Fallible ℕ
  remove_once retention batch_size now s =
      let (s', count) = repository.delete_terminal_before (now -ℤ retention) batch_size s in
      elim count [ err e ↦ (s', err (other "delete retained notifications")) | ok n ↦ (s', ok n) ]
