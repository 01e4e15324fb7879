-- ===== src/System.antt =====
-- The service as a whole: the tables and the broker's queue, and the steps by which the roles of
-- internal/app/bootstrap.go change them, in any order and by any number of processes.
-- A step is one transaction of internal/store/postgres or one act of the broker, so publishers,
-- workers and schedulers may come between any two calls of one another.
pub mod Fits
pub mod Acts
pub mod Writes
pub mod Rounds
pub mod Safety
pub mod Roles
pub mod Workers
pub mod Progress
use rc_pangjiahui.Prelude.{
  ℕ, String, Bool, true, false, ◌&&◌, ◌≡◌, ◌=ₛ◌, List, [], ◌∷◌, ◌++◌, map, any_where, if◌then◌else◌,
}
use rc_pangjiahui.Notification.Model.{Time, Task, OutboxEvent, AttemptResult}
use rc_pangjiahui.Store.Tables.{
  EventRow, Db, Reply, answered, refused, lost, is_for, Fallible, ok, err,
}
use rc_pangjiahui.Store.Shape.{IsComplete}
use rc_pangjiahui.Store.Intake.{CreateCalls, create_or_get}
use rc_pangjiahui.Store.Outbox.{Engine, claim_outbox, mark_published}
use rc_pangjiahui.Store.Delivery.{claim_delivery, apply_delivery_result}
use rc_pangjiahui.Store.Schedule.{ScheduleCalls, schedule_due, delete_terminal_before}
use rc_pangjiahui.Store.Query.{TxCalls, replay_dead_atomic}
use rc_pangjiahui.Store.Invariant.Intake.{IsFresh}
use rc_pangjiahui.Delivery.Service.{Message}
use rc_pangjiahui.Outbox.{message_of}
use rc_pangjiahui.Outbox.Postgres.{Broker}
use rc_pangjiahui.Outbox.Laws.{Matches, announces_event}

-- The messages that the broker holds, those of the events that a publisher has ever claimed, those
-- that the broker has ever taken, and those for which a worker has had an answer to its claim. Only
-- the first are there; the others are the history.
pub record Mail : Type 0 where
  pub queue : List Message
  pub claimed : List Message
  pub taken : List Message
  pub handled : List Message

pub record System : Type 0 where
  pub db : Db
  pub mail : Mail

abbrev pub same_message : Message → Message → Bool
same_message a b = b.event_id =ₛ a.event_id && b.notification_id =ₛ a.notification_id

-- The queue after the acknowledgement of one message.
unfoldable pub remove_first : Message → List Message → List Message
remove_first m [] = []
remove_first m (x ∷ xs) = if same_message m x then xs else x ∷ remove_first m xs

-- Whether the broker takes the message.
abbrev pub takes : Broker → Bool
takes Broker.confirmed = true
takes (Broker.unconfirmed taken e) = taken

abbrev pub post : Bool → Message → Mail → Mail
post takes m mail =
    if takes
    then record mail { queue = mail.queue ++ m ∷ []; taken = mail.taken ++ m ∷ [] }
    else mail

-- A publisher has the events of its claim only if it was answered.
abbrev pub note_events : Fallible (List OutboxEvent) → Mail → Mail
note_events (ok events) mail = record mail { claimed = mail.claimed ++ map message_of events }
note_events (err e) mail = mail

-- A worker knows that its claim was carried out only if it was answered.
abbrev pub note_claim : Reply → Message → Mail → Mail
note_claim answered m mail = record mail { handled = mail.handled ++ m ∷ [] }
note_claim refused m mail = mail
note_claim lost m mail = mail

-- No message has carried the identifier.
pub record IsUnused (mail : Mail) (id : String) : Type 0 where
  pub not_taken : any_where (λ m. m.event_id =ₛ id) mail.taken ≡ false
  pub not_handled : any_where (λ m. m.event_id =ₛ id) mail.handled ≡ false

-- The scheduler's identifiers are new as long as the generation has no event.
abbrev pub IsUnusedDigest : Mail → (String → ℕ → String) → List EventRow → Type 0
IsUnusedDigest mail digest events =
    (id : String) (n : ℕ) → any_where (is_for id n) events ≡ false → IsUnused mail (digest id n)

-- The statements of the API, the publisher, the worker, the scheduler, the operator and the
-- retention, and the broker's acts. Identifiers that a step brings in are new.
pub data Step (s : System) : System → Type 0 where
  accept :
      (calls : CreateCalls) (task : Task) (event : OutboxEvent)
      → IsFresh task event
      → IsUnused s.mail event.id
      → Step s (record s { db = (create_or_get calls task event s.db).0 })
  claim_events :
      (call : Reply) (engine : Engine) (now : Time) (limit : ℕ) (token : String) (until : Time)
      → Step s (record {
        db = (claim_outbox call engine now limit token until s.db).0;
        mail = note_events (claim_outbox call engine now limit token until s.db).1 s.mail;
      })
  -- A publisher publishes the events that it has claimed, also when they are claimed again by another.
  publish :
      (b : Broker) (m : Message)
      → any_where (same_message m) s.mail.claimed ≡ true
      → Step s (record s { mail = post (takes b) m s.mail })
  -- A publisher marks an event only after the broker has taken its message.
  mark :
      (call : Reply) (event : OutboxEvent) (token : String) (at : Time)
      → Matches s.db event
      → any_where (announces_event event) s.mail.taken ≡ true
      → Step s (record s { db = (mark_published call event.id token at s.db).0 })
  claim_task :
      (call : Reply) (clock : Time) (m : Message) (lease : String) (until : Time)
      → any_where (same_message m) s.mail.queue ≡ true
      → Step s (record {
        db = (claim_delivery call clock m.notification_id lease until s.db).0;
        mail = note_claim call m s.mail;
      })
  apply_result :
      (call : Reply) (id lease : String) (result : AttemptResult)
      → IsComplete result
      → Step s (record s { db = (apply_delivery_result call id lease result s.db).0 })
  -- A worker acknowledges a message only after the answer to its claim.
  acknowledge :
      (m : Message)
      → any_where (same_message m) s.mail.handled ≡ true
      → Step s (record s { mail = record (s.mail) { queue = remove_first m s.mail.queue } })
  schedule :
      (calls : ScheduleCalls) (now : Time) (limit : ℕ)
      → IsUnusedDigest s.mail calls.digest s.db.events
      → Step s (record s { db = (schedule_due calls now limit s.db).0 })
  replay :
      (calls : TxCalls) (id : String) (now : Time) (event_id : String)
      → IsUnused s.mail event_id
      → Step s (record s { db = (replay_dead_atomic calls id now event_id s.db).0 })
  remove :
      (call : Reply) (engine : Engine) (cutoff : Time) (limit : ℕ)
      → Step s (record s { db = (delete_terminal_before call engine cutoff limit s.db).0 })

pub data Reach (s : System) : System → Type 0 where
  here : Reach s s
  next : {t u : System} → Reach s t → Step t u → Reach s u

pub Reach-trans : {s t u : System} → Reach s t → Reach t u → Reach s u
Reach-trans r here = r
Reach-trans r (next q step) = next (Reach-trans r q) step

-- Empty tables and an empty queue.
abbrev pub start : System
start = record {
  db = record { tasks = []; events = [] };
  mail = record { queue = []; claimed = []; taken = []; handled = [] };
}
