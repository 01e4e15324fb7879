-- ===== src/Examples/Acceptance.antt =====
-- Runs of the acceptance of a request, of a query and of a replay.
use rc_pangjiahui.Prelude.{
  String, true, false, ◌≡◌, refl, some, [], ◌∷◌, pos, any_where, find_where, update_where, ◌+◌,
}
use rc_pangjiahui.Text.{trim_space, trim_prefix, trim_left, trim_right, after_prefix}
use rc_pangjiahui.Notification.Hash.{request_hash}
use rc_pangjiahui.Store.Tables.{
  TaskRow, Db, answered, ok, has_key, insert_task, insert_event, task_checks, with_tx, event_checks,
}
use rc_pangjiahui.Store.Query.{
  key_view, caller_view, is_owned, is_dead, replay_body, replay_dead_atomic, get_for_caller,
}
use rc_pangjiahui.Store.Intake.{
  row_of, create_body, create_notification, insert_outbox, create_or_get,
}
use rc_pangjiahui.Store.Intake.Atomic.{created}
use rc_pangjiahui.Intake.{Surroundings, create, answer, task_of, event_of, same_bytes}
use rc_pangjiahui.Intake.Postgres.{repository}
use rc_pangjiahui.Intake.Laws.{create_accepted}
use rc_pangjiahui.Intake.Answers.{create_again, create_twice}
use rc_pangjiahui.Config.{Tokens}
use rc_pangjiahui.Query.{view_of, get, replay}
use rc_pangjiahui.Query.Laws
use rc_pangjiahui.Query.Laws.{get_own, replayed, replay_revives, replay_refused}
use rc_pangjiahui.Http.{
  Body, Decoded, Services, find_caller, authenticate, create_handler, post_notification,
}
use rc_pangjiahui.Http.Laws.{is_entry, services, post_notification_stored}
use rc_pangjiahui.Examples.{
  crm, digest, outside, order, all_up, tx_up, waiting, died, empty, with_task,
}

create_accepted_example :
    ((create (repository all_up) outside order empty).0
      ≡ created (task_of outside order crm digest) (event_of outside) empty)
    × (all_up.commit ≡ answered)
    × (any_where (has_key "orders" "k1") empty.tasks ≡ false)
    × ((task_of outside order crm digest).caller_id ≡ order.caller)
    × ((task_of outside order crm digest).idempotency_key ≡ order.idempotency_key)
    × ((event_of outside).aggregate_id ≡ (task_of outside order crm digest).id)
    × ((event_of outside).generation ≡ (task_of outside order crm digest).generation)
unfolding create create_or_get with_tx create_body create_notification insert_outbox insert_task
    insert_event task_checks event_checks any_where request_hash answer
create_accepted_example =
    create_accepted all_up outside order empty (task_of outside order crm digest) refl

-- The same request comes again, under another identifier.
abbrev later : Surroundings
later = record outside { now = pos 5000; task_id = "n2"; event_id = "e2" }

create_again_example :
    create (repository all_up) later order (with_task waiting)
    ≡ (with_task waiting, record { result = ok (key_view waiting, true); observed = "accepted" })
unfolding create create_or_get with_tx create_body create_notification insert_outbox insert_task
    insert_event task_checks event_checks any_where find_where request_hash answer same_bytes
create_again_example =
    create_again all_up later order (with_task waiting) crm digest waiting refl refl refl refl refl
      refl refl refl

create_twice_example :
    create (repository all_up) later order (create (repository all_up) outside order empty).0 ≡ (
      (create (repository all_up) outside order empty).0,
      record {
        result = ok (key_view (row_of (task_of outside order crm digest)), true);
        observed = "accepted";
      },
    )
unfolding create create_or_get with_tx create_body create_notification insert_outbox insert_task
    insert_event task_checks event_checks any_where find_where request_hash answer same_bytes
create_twice_example =
    create_twice all_up all_up outside (pos 5000) "n2" "e2" order empty
      (task_of outside order crm digest) refl refl refl refl refl refl

get_own_example :
    (r : TaskRow) × (find_where (is_owned "n1" "orders") (with_task waiting).tasks ≡ some r)
    × (r.id ≡ waiting.id)
    × (r.caller_id ≡ order.caller)
    × (view_of (caller_view waiting) ≡ view_of (caller_view r))
unfolding get get_for_caller find_where
get_own_example =
    get_own tx_up "orders" "n1" (with_task waiting) (view_of (caller_view waiting)) refl

replay_revives_example :
    (r : TaskRow) × (find_where (is_dead "n1") (with_task died).tasks ≡ some r)
    × ((replay (Laws.repository true tx_up) (pos 9000) "e9" "n1" (with_task died)).0
        ≡ replayed "e9" (pos 9000) "n1" (r.generation + 1) (with_task died))
    × (tx_up.commit ≡ answered)
unfolding replay replay_dead_atomic replay_body insert_event event_checks find_where any_where
    update_where
replay_revives_example = replay_revives tx_up (pos 9000) "e9" "n1" (with_task died) refl

abbrev tokens : Tokens
tokens = ("t1", "orders") ∷ []

abbrev body : Decoded
body = Decoded.fields "crm" (0x7b ∷ 0x7d ∷ [])

abbrev api : Services Db
api = services outside all_up true tx_up (pos 9000) "e9"

post_notification_stored_example :
    (caller : String) × (r : TaskRow) × (any_where
        (is_entry (trim_prefix "Bearer " "Bearer t1") caller)
        tokens
      ≡ true)
    × (find_where
          (has_key caller (trim_space "k1"))
          (post_notification api tokens "Bearer t1" "k1" body empty).0.tasks
        ≡ some r)
    × ((post_notification api tokens "Bearer t1" "k1" body empty).1.body
        ≡ Body.accepted r.id r.status)
unfolding post_notification create_handler authenticate find_caller after_prefix trim_left
    trim_right create create_or_get with_tx create_body create_notification insert_outbox
    insert_task insert_event task_checks event_checks any_where request_hash answer
post_notification_stored_example =
    post_notification_stored outside all_up true tx_up (pos 9000) "e9" tokens "Bearer t1" "k1" body
      empty refl
