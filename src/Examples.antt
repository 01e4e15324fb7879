-- ===== src/Examples.antt =====
-- Concrete tables, requests and servers, for runs of the service on small inputs.
pub mod Acceptance
pub mod Deliveries
pub mod Maintenance
pub mod Parts
pub mod Senders
pub mod Loops
pub mod Systems
use rc_pangjiahui.Prelude.{
  ℕ, String, Bool, true, ◌≡◌, refl, Option, none, some, List, [], ◌∷◌, pos, any_where,
}
use rc_pangjiahui.Notification.Model.{
  Time, Bytes, Status, pending, delivering, retry_wait, dead, RetryPolicy,
}
use rc_pangjiahui.Destination.{Destination}
use rc_pangjiahui.Store.Tables.{TaskRow, EventRow, Db, answered, has_id, is_for}
use rc_pangjiahui.Store.Query.{TxCalls}
use rc_pangjiahui.Store.Intake.{row_of, event_row_of, CreateCalls}
use rc_pangjiahui.Store.Outbox.{Engine}
use rc_pangjiahui.Store.Schedule.{ScheduleCalls}
use rc_pangjiahui.Store.Shape.{RowShape}
use rc_pangjiahui.Store.Invariant.{Inv}
use rc_pangjiahui.Intake.{Surroundings, Request, task_of, event_of}

abbrev pub policy : RetryPolicy
policy = record {
  max_attempts = 3;
  lifetime = pos 86400000000000;
  delays = pos 5000000000 ∷ pos 30000000000 ∷ [];
}

abbrev pub crm : Destination
crm = record {
  id = "crm";
  method = "POST";
  url = some "https://crm.example/hook";
  static_headers = [];
  secret_headers = [];
  timeout = pos 5000000000;
  retry = policy;
  concurrency_limit = 2;
}

abbrev pub digest : Bytes
digest =
    0 ∷ 0 ∷ 0 ∷ 0 ∷ 0 ∷ 0 ∷ 0 ∷ 0 ∷ 0 ∷ 0 ∷ 0 ∷ 0 ∷ 0 ∷ 0 ∷ 0 ∷ 0 ∷ 0 ∷ 0 ∷ 0 ∷ 0 ∷ 0 ∷ 0 ∷ 0 ∷ 0
    ∷ 0 ∷ 0 ∷ 0 ∷ 0 ∷ 0 ∷ 0 ∷ 0 ∷ 0 ∷ []

abbrev pub outside : Surroundings
outside = record {
  registry = λ id. some crm;
  canonical = λ payload. some payload;
  sha256 = λ bytes. digest;
  now = pos 1000;
  task_id = "n1";
  event_id = "e1";
}

abbrev pub order : Request
order = record {
  caller = "orders";
  idempotency_key = "k1";
  destination_id = "crm";
  payload = 0x7b ∷ 0x7d ∷ [];
}

abbrev pub all_up : CreateCalls
all_up = record {
  begin_up = true;
  task_up = true;
  event_up = true;
  commit = answered;
  get_up = true;
}

abbrev pub tx_up : TxCalls
tx_up = record { begin_up = true; update_up = true; insert_up = true; commit = answered }

abbrev pub engine : Engine
engine = record { text_before = λ a b. true; locked = λ id. Bool.false }

abbrev pub schedule_up : ScheduleCalls
schedule_up = record {
  begin_up = true;
  select_up = true;
  exec_up = λ id. true;
  commit = answered;
  engine = engine;
  digest = λ id n. "d1";
}

-- The row and the event of the accepted request.
abbrev pub waiting : TaskRow
waiting = row_of (task_of outside order crm digest)

abbrev pub announced : EventRow
announced = event_row_of (event_of outside)

abbrev pub leased : TaskRow
leased = record waiting {
  status = delivering;
  attempt_count = 1;
  lease_token = some "l1";
  lease_until = some (pos 2000);
}

abbrev pub died : TaskRow
died = record waiting { status = dead; attempt_count = 3; dead_at = some (pos 2000) }

abbrev pub empty : Db
empty = record { tasks = []; events = [] }

-- The tables with one task, and its event.
abbrev pub with_task : TaskRow → Db
with_task r = record { tasks = r ∷ []; events = announced ∷ [] }

pub empty-Inv : Inv empty
empty-Inv = record {
  shapes = tt;
  unique_ids = tt;
  unique_keys = tt;
  unique_events = tt;
  unique_generations = tt;
  owned = tt;
  covered = tt;
}

pub with_task-Inv :
    (r : TaskRow)
    → RowShape r
    → any_where (has_id "n1") (r ∷ []) ≡ true
    → any_where (is_for r.id r.generation) (announced ∷ []) ≡ true
    → Inv (with_task r)
with_task-Inv r shape owner cover = record {
  shapes = (shape, tt);
  unique_ids = (tt, tt);
  unique_keys = (tt, tt);
  unique_events = (tt, tt);
  unique_generations = (tt, tt);
  owned = (owner, tt);
  covered = (cover, tt);
}

pub waiting-Inv : Inv (with_task waiting)
unfolding any_where
waiting-Inv =
    with_task-Inv waiting
      (record {
        leased = refl;
        lease_ends = refl;
        waits = refl;
        was_delivered = refl;
        has_died = refl;
      })
      refl refl

pub leased-Inv : Inv (with_task leased)
unfolding any_where
leased-Inv =
    with_task-Inv leased
      (record {
        leased = refl;
        lease_ends = refl;
        waits = refl;
        was_delivered = refl;
        has_died = refl;
      })
      refl refl

pub died-Inv : Inv (with_task died)
unfolding any_where
died-Inv =
    with_task-Inv died
      (record {
        leased = refl;
        lease_ends = refl;
        waits = refl;
        was_delivered = refl;
        has_died = refl;
      })
      refl refl
