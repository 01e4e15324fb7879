-- ===== src/Examples/Deliveries.antt =====
-- Runs of the handling of a message and of the limiter.
use rc_pangjiahui.Prelude.{
  ◌≤◌, ◌+ℤ◌, String, true, false, ◌≡◌, refl, none, some, List, [], ◌∷◌, pos, any_where, find_where,
  update_where, count_where, arith, eq_iff,
}
use rc_pangjiahui.Notification.Model.{Outcome, AttemptResult}
use rc_pangjiahui.Store.Tables.{TaskRow, ok, answered}
use rc_pangjiahui.Store.Delivery.{
  is_pending, claim_row, claim_of, claimed_task, claim_delivery, snapshot_of, result_row,
  result_checks, apply_delivery_result,
}
use rc_pangjiahui.Store.Ownership.{claim_exclusive}
use rc_pangjiahui.Delivery.Service.{
  Message, ack, Surroundings, attempt_of, outcome_label, handle, deliver,
}
use rc_pangjiahui.Delivery.Service.Postgres.{Calls, repository}
use rc_pangjiahui.Delivery.Service.Effects.{handle_sent}
use rc_pangjiahui.Delivery.Service.Records.{all_answered, handle_records}
use rc_pangjiahui.Delivery.Limiter.Capacity.{active}
use rc_pangjiahui.Delivery.Limiter.Schedule.{
  Event, turn, finish, count, run, idle, concurrency_limited,
}
use rc_pangjiahui.Prelude.{Option, ◌=ₛ◌, if◌then◌else◌, All}
use rc_pangjiahui.Store.Invariant.{Inv}
use rc_pangjiahui.Broker.Consumer.{Round, consume_all, IsSettled, consume_all_settles}
use rc_pangjiahui.Prelude.{◌*◌, ◌/◌, negsuc}
use rc_pangjiahui.Notification.Model.{Duration, retryable}
use rc_pangjiahui.Notification.Retry.{apply_jitter, configured_delay}
use rc_pangjiahui.Store.Query.{is_dead}
use rc_pangjiahui.Delivery.Service.Lifted.{is_waiting, with_jitter, without_jitter, handle_lifted}
use rc_pangjiahui.Examples.{with_task-Inv, waiting, with_task, waiting-Inv}

abbrev pub ready : Message
ready = record { event_id = "e1"; notification_id = "n1" }

-- A supplier that answers with a success.
abbrev pub supplier : Surroundings
supplier = record {
  lease = "l1";
  now = pos 1500;
  acquires = λ id limit. true;
  send = λ snapshot. record {
    outcome = Outcome.delivered;
    http_status = 204;
    error_code = "";
    error_message = "";
    retry_after = none;
  };
  completed_at = pos 1600;
  jitter = none;
  lease_ttl = pos 60000000000;
}

abbrev pub clock_calls : Calls
clock_calls = all_answered (pos 1500)

handle_sent_example :
    (clock_calls.claim ≡ answered)
    × ((r : TaskRow) × (find_where (is_pending "n1") (with_task waiting).tasks ≡ some r)
        × (snapshot_of waiting ≡ snapshot_of r))
unfolding handle deliver claim_delivery apply_delivery_result find_where any_where update_where
    count_where attempt_of result_checks
handle_sent_example =
    handle_sent clock_calls supplier ready (with_task waiting) (snapshot_of waiting) refl

abbrev claim : TaskRow → TaskRow
claim = claim_row (pos 1500) "l1" (pos 1500 +ℤ pos 60000000000)

abbrev result : AttemptResult
result =
    attempt_of supplier (claimed_task "l1" (pos 1500 +ℤ pos 60000000000) (claim waiting))
      (supplier.send (snapshot_of waiting))

handle_records_example :
    handle (repository (all_answered (pos 1500))) supplier ready (with_task waiting) ≡ (
      record (with_task waiting) {
        tasks =
            update_where
              (is_pending "n1")
              (λ x. result_row result (claim x))
              (with_task waiting).tasks;
      },
      record {
        disposition = ack;
        sent = some (snapshot_of waiting);
        observed = some (outcome_label result.outcome);
      },
    )
unfolding find_where result_checks attempt_of
handle_records_example =
    handle_records (pos 1500) supplier ready (with_task waiting) waiting waiting-Inv refl refl refl

claim_exclusive_example :
    (claim_delivery answered
        (pos 1700)
        "n1"
        "l2"
        (pos 9000)
        (claim_delivery answered (pos 1500) "n1" "l1" (pos 2000) (with_task waiting)).0
      ≡ (
        (claim_delivery answered (pos 1500) "n1" "l1" (pos 2000) (with_task waiting)).0,
        ok (claim_of (pos 1700) "l2" (pos 9000) none),
      ))
    × (apply_delivery_result answered "n1" "l2" result
          (claim_delivery answered (pos 1500) "n1" "l1" (pos 2000) (with_task waiting)).0
        ≡ (
          (claim_delivery answered (pos 1500) "n1" "l1" (pos 2000) (with_task waiting)).0,
          ok false,
        ))
unfolding find_where
claim_exclusive_example =
    claim_exclusive (pos 1500) (pos 1700) "n1" "l1" "l2" (pos 2000) (pos 9000) result
      (with_task waiting) waiting waiting-Inv refl (λ e. ground (arith, (eq_iff "l1" "l2").1 e))

abbrev turns : List Event
turns = turn false "crm" 1 ∷ turn false "crm" 1 ∷ finish "crm" ∷ []

concurrency_limited_example :
    (count "crm" (run turns idle).running ≤ 1)
    × ((j : String) → active j (run turns idle).limiter ≡ count j (run turns idle).running)
concurrency_limited_example =
    concurrency_limited "crm" 1 turns ((λ e. omega arith), ((λ e. omega arith), (tt, tt)))

-- A body that is no message, and then one that is.
abbrev bodies : List Round
bodies =
    (record { body = "{"; done = false; calls = clock_calls; env = supplier })
    ∷ (record { body = "{}"; done = false; calls = clock_calls; env = supplier })
    ∷ []

abbrev parse : String → Option Message
parse body = if body =ₛ "{}" then some ready else none

consume_all_settles_example :
    Inv (consume_all parse bodies (with_task waiting)).0
    × All
        (IsSettled parse (consume_all parse bodies (with_task waiting)).0)
        (consume_all parse bodies (with_task waiting)).1
consume_all_settles_example = consume_all_settles parse bodies (with_task waiting) waiting-Inv

-- A task whose delay is its lifetime, and a supplier that is busy.
abbrev impatient : TaskRow
impatient = record waiting {
  request = record (waiting.request) {
    retry = record { max_attempts = 3; lifetime = pos 30000000000; delays = pos 30000000000 ∷ [] };
  };
}

abbrev busy : Surroundings
busy = record supplier {
  send = λ snapshot. record {
    outcome = retryable;
    http_status = 500;
    error_code = "http_5xx";
    error_message = "";
    retry_after = none;
  };
}

-- The random factor is 1.1.
abbrev lift : Duration → Duration
lift delay = elim delay [ pos n ↦ pos (n * 11 / 10) | negsuc n ↦ negsuc n ]

handle_lifted_example :
    (any_where
        (is_dead "n1")
        (handle
          (repository clock_calls)
          (with_jitter (apply_jitter lift) busy)
          ready
          (with_task impatient)).0.tasks
      ≡ true)
    × (any_where
          (is_waiting "n1")
          (handle
            (repository clock_calls)
            (without_jitter busy)
            ready
            (with_task impatient)).0.tasks
        ≡ true)
unfolding find_where configured_delay apply_jitter any_where
handle_lifted_example =
    handle_lifted (pos 1500) busy lift ready (with_task impatient) impatient
      (with_task-Inv impatient
        (record {
          leased = refl;
          lease_ends = refl;
          waits = refl;
          was_delivered = refl;
          has_died = refl;
        })
        refl refl)
      refl refl (omega arith, omega arith) refl refl
      ((((omega arith), (omega arith)), tt), omega arith) (omega arith) (omega arith)
