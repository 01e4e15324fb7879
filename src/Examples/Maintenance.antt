-- ===== src/Examples/Maintenance.antt =====
-- Runs of the scheduler and of the retention.
use rc_pangjiahui.Prelude.{◌||◌, ◌-ℤ◌, ◌+ℤ◌, true, ◌≡◌, ◌⊎◌, refl, pos, map, any_where, All}
use rc_pangjiahui.Notification.Model.{ScheduleResult}
use rc_pangjiahui.Store.Tables.{Db, ok, answered, has_id}
use rc_pangjiahui.Store.Schedule.{
  due_candidates, is_exhausted, insert_or_skip, schedule_one, schedule_all, schedule_due, no_result,
  is_expired,
}
use rc_pangjiahui.Prelude.{select_where, order_by, insert_by, update_where}
use rc_pangjiahui.Store.Tables.{event_checks}
use rc_pangjiahui.Store.Schedule.Settle.{settle, schedule_all-settles}
use rc_pangjiahui.Store.Transitions.{Pairwise, Follows, Recovered, schedule_due-Follows}
use rc_pangjiahui.Store.Invariant.{Inv}
use rc_pangjiahui.Store.Invariant.Schedule.{schedule_due-Inv}
use rc_pangjiahui.Scheduler.{remove_once}
use rc_pangjiahui.Scheduler.Laws.{repository, remove_once_keeps}
use rc_pangjiahui.Examples.{engine, schedule_up, leased, died, with_task, leased-Inv, died-Inv}

schedule_due-Inv_example : Inv (schedule_due schedule_up (pos 9000) 10 (with_task leased)).0
schedule_due-Inv_example = schedule_due-Inv schedule_up (pos 9000) 10 (with_task leased) leased-Inv

schedule_due-Follows_example :
    Pairwise
      (λ r s. Follows r s ⊎ Recovered (pos 9000) r s)
      (with_task leased).tasks
      (schedule_due schedule_up (pos 9000) 10 (with_task leased)).0.tasks
schedule_due-Follows_example =
    schedule_due-Follows schedule_up (pos 9000) 10 (with_task leased) leased-Inv

remove_once_keeps_example :
    Inv (remove_once (repository schedule_up answered) (pos 100) 10 (pos 9000) (with_task died)).0
    × All
        (λ r.
          (is_expired (pos 9000 -ℤ pos 100) (with_task died) r
            || any_where
                (has_id r.id)
                (remove_once
                  (repository schedule_up answered)
                  (pos 100)
                  10
                  (pos 9000)
                  (with_task died)).0.tasks)
          ≡ true)
        (with_task died).tasks
remove_once_keeps_example =
    remove_once_keeps schedule_up answered (pos 100) 10 (pos 9000) (with_task died) died-Inv

-- The tables and the counts after the rounds of the run.
abbrev settled_run : Db × ScheduleResult
settled_run =
    elim (schedule_all schedule_up (pos 9000)
      (due_candidates engine (pos 9000) 10 (with_task leased).tasks)
      (with_task leased, no_result)) [ ok t ↦ t | _ ↦ (with_task leased, no_result) ]

schedule_all-settles_example :
    settled_run.0.tasks
    ≡ map
        (settle (pos 9000) (due_candidates engine (pos 9000) 10 (with_task leased).tasks))
        (with_task leased).tasks
unfolding ◌+ℤ◌ schedule_all schedule_one due_candidates is_exhausted insert_or_skip event_checks
    select_where order_by insert_by update_where any_where
schedule_all-settles_example =
    schedule_all-settles schedule_up (pos 9000) 10 (with_task leased) settled_run (tt, tt) refl
