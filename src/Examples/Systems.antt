-- ===== src/Examples/Systems.antt =====
-- Runs of the service as a whole.
use rc_pangjiahui.Prelude.{true, ◌≡◌, refl, [], ◌∷◌, All, any_where}
use rc_pangjiahui.Notification.Model.{Task, pending, same_status}
use rc_pangjiahui.Store.Tables.{with_tx, insert_task, insert_event, task_checks, event_checks}
use rc_pangjiahui.Store.Intake.{create_or_get, create_body, create_notification, insert_outbox}
use rc_pangjiahui.Intake.{task_of, event_of}
use rc_pangjiahui.Delivery.Service.{handle}
use rc_pangjiahui.Delivery.Service.Postgres as Worker
use rc_pangjiahui.Prelude.{find_where, update_where, count_where, some}
use rc_pangjiahui.Store.Tables.{TaskRow}
use rc_pangjiahui.Store.Delivery.{
  is_pending, snapshot_of, claim_delivery, apply_delivery_result, result_checks,
}
use rc_pangjiahui.Notification.State.{classify_result}
use rc_pangjiahui.Destination.Address.{validate_resolved_ips, disallowed_ip}
use rc_pangjiahui.Delivery.Service.{deliver, attempt_of}
use rc_pangjiahui.Delivery.Reading.{sanitize}
use rc_pangjiahui.Delivery.Sender.{send, result_of, result_of_response, add_secrets}
use rc_pangjiahui.Delivery.Exchange.{follow, dial, check_redirect}
use rc_pangjiahui.Delivery.Worker.{IsPosted, handle_posts}
use rc_pangjiahui.Outbox.{run_once}
use rc_pangjiahui.Outbox.Postgres
use rc_pangjiahui.System.{System, note_claim, accept, Reach, here, next, start}
use rc_pangjiahui.System.Safety.{is_owed, no_task_lost}
use rc_pangjiahui.System.Roles.{Arrives, run_once-Arrives}
use rc_pangjiahui.System.Workers.{settle_mail, handle-Reach}
use rc_pangjiahui.System.Progress.{IsDone, pending_served}
use rc_pangjiahui.Examples.{crm, digest, outside, order, all_up, with_task, waiting, waiting-Inv}
use rc_pangjiahui.Examples.Deliveries.{ready, supplier, clock_calls}
use rc_pangjiahui.Examples.Senders.{sender, network}
use rc_pangjiahui.Examples.Loops.{broker_calls, batches, readings}

abbrev task : Task
task = task_of outside order crm digest

-- The service after the acceptance of one request.
abbrev accepted : System
accepted = record start { db = (create_or_get all_up task (event_of outside) start.db).0 }

accepted-Reach : Reach start accepted
unfolding any_where
accepted-Reach = next here (
    accept all_up task (event_of outside) (record { starts = refl; about = refl; first = refl })
      (record { not_taken = refl; not_handled = refl }))

no_task_lost_example :
    All
      (λ r.
        same_status r.status pending ≡ true
        → any_where (is_owed accepted.mail.queue r) accepted.db.events ≡ true)
      accepted.db.tasks
no_task_lost_example = no_task_lost accepted-Reach

pending_served_example : (t : System) × Reach accepted t × IsDone "n1" t
unfolding create_or_get with_tx create_body create_notification insert_outbox insert_task
    insert_event task_checks event_checks any_where
pending_served_example = pending_served accepted-Reach "n1" refl

-- The tables with a task that waits, and its message in the queue.
abbrev queued : System
queued = record {
  db = with_task waiting;
  mail = record { queue = ready ∷ []; claimed = ready ∷ []; taken = ready ∷ []; handled = [] };
}

handle-Reach_example :
    let (db, handled) = handle (Worker.repository clock_calls) supplier ready queued.db in
    Reach queued (record {
      db = db;
      mail = settle_mail handled.disposition ready (note_claim clock_calls.claim ready queued.mail);
    })
unfolding any_where
handle-Reach_example = handle-Reach clock_calls supplier ready queued refl

run_once-Arrives_example :
    Arrives queued
      (run_once
        (Postgres.repository broker_calls)
        batches
        readings
        (record { db = queued.db; queue = queued.mail.queue })).0
run_once-Arrives_example = run_once-Arrives broker_calls batches readings queued waiting-Inv

-- A worker with the sender, whose supplier answers after a redirection.
handle_posts_example :
    (r : TaskRow) × (find_where (is_pending "n1") (with_task waiting).tasks ≡ some r)
    × IsPosted sender network (snapshot_of r)
unfolding handle deliver claim_delivery apply_delivery_result result_checks attempt_of send follow
    dial check_redirect result_of result_of_response sanitize add_secrets any_where find_where
    update_where count_where classify_result validate_resolved_ips disallowed_ip
handle_posts_example =
    handle_posts clock_calls sender network supplier ready (with_task waiting) refl
