-- ===== src/Examples/Loops.antt =====
-- Runs of the polling loops, of the broker's client, of a process and of the redaction.
use rc_pangjiahui.Prelude.{Bool, true, false, ◌≡◌, ◌⊎◌, refl, none, some, List, [], ◌∷◌, pos, map}
use rc_pangjiahui.Store.Tables.{Error, answered, other}
use rc_pangjiahui.Store.Invariant.{Inv}
use rc_pangjiahui.Outbox.{Config, Readings}
use rc_pangjiahui.Outbox.Postgres
use rc_pangjiahui.Outbox.Postgres.{World, Broker, Sent}
use rc_pangjiahui.Outbox.Loop
use rc_pangjiahui.Outbox.Loop.{run_sends}
use rc_pangjiahui.Scheduler.Loop as Rounds
use rc_pangjiahui.Store.Tables.{Db}
use rc_pangjiahui.Examples.{schedule_up}
use rc_pangjiahui.Config.{Role}
use rc_pangjiahui.App.{BootCalls, goroutine_ended, run_configured}
use rc_pangjiahui.App.Closing.{unwind, run_configured-Closes}
use rc_pangjiahui.Broker.Client.{
  Client, IsQuiet, publish_on, publish_each, errors_of, publish_each_own, message_returned, Case,
  takes_return, takes_confirmation, takes_context, context_ended, late_call, returned_call,
  silent_call, publish_on-stale,
}
use rc_pangjiahui.Broker.Opening.{
  dial, open_channel, declare_exchange, declare_queue, bind_queue, enable_confirms, OpenCalls,
  open_client, left_open, open_client-closes,
}
use rc_pangjiahui.Observability.Logging.{Value, Attr, Attrs, redact, IsSafe, redact-IsSafe}
use rc_pangjiahui.Examples.{engine, waiting, with_task, waiting-Inv}

abbrev pub world : World
world = record { db = with_task waiting; queue = [] }

abbrev pub broker_calls : Postgres.Calls
broker_calls = record {
  engine = engine;
  claim = answered;
  broker = λ m. Broker.confirmed;
  mark = λ id. answered;
}

abbrev pub batches : Config
batches = record { batch_size = 10; claim_ttl = pos 60000000000 }

abbrev pub readings : Readings
readings = record { now = pos 1500; token = "t1"; marked_at = λ id. pos 1600 }

abbrev canceled : Error → Bool
canceled e = false

abbrev two_rounds : List (Postgres.Calls × Readings × Bool × Bool)
two_rounds = (broker_calls, readings, true, true) ∷ (broker_calls, readings, true, false) ∷ []

run_sends_example :
    Inv (Loop.run batches canceled (map Loop.round_of two_rounds) world).0.db
    × Sent (Loop.run batches canceled (map Loop.round_of two_rounds) world).0
run_sends_example = run_sends batches canceled two_rounds world waiting-Inv (refl, tt)

-- A round in time, and one that the context's end comes before.
abbrev in_time : Rounds.Round Db
in_time = Rounds.round_of (schedule_up, answered, pos 9000, false, true, true)

abbrev too_late : Rounds.Round Db
too_late = Rounds.round_of (schedule_up, answered, pos 9500, true, true, true)

-- A process whose worker cannot consume.
abbrev no_consumer : BootCalls
no_consumer = record {
  pool_up = true;
  ping_up = true;
  load_error = none;
  publisher_error = none;
  worker_error = none;
  jitter_error = none;
  consume_error = some (other "consume messages");
  last = goroutine_ended (some (other "closed"));
  is_canceled = canceled;
}

run_configured-Closes_example : unwind [] (run_configured no_consumer Role.all).0 ≡ some []
run_configured-Closes_example = run_configured-Closes no_consumer Role.all

-- A client before its first message.
abbrev quiet : Client
quiet = record { confirms = []; returns = []; closed = false; next_tag = 1 }

abbrev answers : List (Bool × Case)
answers = (true, takes_return) ∷ (false, takes_context) ∷ (true, takes_confirmation) ∷ []

publish_each_own_example :
    IsQuiet (publish_each answers quiet).0 × ((publish_each answers quiet).1 ≡ errors_of answers)
publish_each_own_example = publish_each_own answers quiet (refl, refl, refl)

publish_on-stale_example :
    (((publish_on (returned_call quiet "NO_ROUTE" takes_return) quiet).1 ≡ message_returned)
      × ((publish_on
            (silent_call takes_return)
            (publish_on (returned_call quiet "NO_ROUTE" takes_return) quiet).0).1
          ≡ none))
    × (((publish_on (late_call quiet true) quiet).1 ≡ context_ended)
        × ((publish_on (silent_call takes_return) (publish_on (late_call quiet true) quiet).0).1
            ≡ none))
    × (((publish_on (returned_call quiet "NO_ROUTE" takes_confirmation) quiet).1 ≡ message_returned)
        × IsQuiet (publish_on (returned_call quiet "NO_ROUTE" takes_confirmation) quiet).0)
publish_on-stale_example = publish_on-stale quiet "NO_ROUTE" true takes_return (refl, refl, refl)

-- A broker that has another queue under the name.
abbrev no_queue : OpenCalls
no_queue = record {
  dial_up = true;
  channel_up = true;
  exchange_up = true;
  queue_up = false;
  bind_up = true;
  confirm_up = true;
}

open_client-closes_example :
    (((open_client no_queue).1 ≡ none)
      × ((open_client no_queue).0
          ≡ dial ∷ open_channel ∷ declare_exchange ∷ declare_queue ∷ bind_queue ∷ enable_confirms
            ∷ [])
      × (left_open (open_client no_queue).0 (false, false) ≡ (true, true)))
    ⊎ (((e : Error) × ((open_client no_queue).1 ≡ some e))
        × (left_open (open_client no_queue).0 (false, false) ≡ (false, false)))
open_client-closes_example = open_client-closes no_queue

abbrev attributes : Attr
attributes =
    Attr.attr "request"
      (Value.group (Attrs.cons (Attr.attr "api_token" (Value.text "t1")) Attrs.nil))

redact-IsSafe_example :
    IsSafe (λ key. key) (redact (λ key. key) attributes)
    × (IsSafe (λ key. key) attributes → redact (λ key. key) attributes ≡ attributes)
redact-IsSafe_example = redact-IsSafe (λ key. key) attributes
