-- ===== src/System/Acts.antt =====
-- The acts of the broker, and the calls that refer to its messages, keep events, tasks and messages
-- tied together.
use rc_pangjiahui.Prelude.{
  String, Bool, true, false, ◌||◌, ◌≡◌, refl, inl, inr, List, [], ◌∷◌, ◌++◌, map, arith, eq_iff,
  All, All-imp, All₂_imp, any_where, Bool-cases,
}
use rc_pangjiahui.Prelude.RowLaws.{All-update_where, any_where-append, any_where→All}
use rc_pangjiahui.Notification.Model.{Time, OutboxEvent}
use rc_pangjiahui.Store.Tables.{
  TaskRow, EventRow, Db, Reply, answered, refused, lost, Fallible, ok, err,
}
use rc_pangjiahui.Store.Outbox.{is_unpublished, published_row, is_held, mark_published}
use rc_pangjiahui.Store.Delivery.{is_pending, claim_delivery}
use rc_pangjiahui.Store.Invariant.Claims.{reply_keeps}
use rc_pangjiahui.Delivery.Service.{Message}
use rc_pangjiahui.Delivery.Service.Effects.{claim-none_pending}
use rc_pangjiahui.Outbox.{message_of}
use rc_pangjiahui.Outbox.Postgres.{announces}
use rc_pangjiahui.Outbox.Laws.{Matches, announces_event, published-Sent}
use rc_pangjiahui.System.{Mail, same_message, remove_first, post, note_claim, note_events}
use rc_pangjiahui.System.Fits.{Fits, Consistent, awaits}
use rc_pangjiahui.System.Writes.{Held}

-- What is in the queue if it was taken is there also with one message more.
any_more :
    (e : EventRow) (m : Message) (taken queue : List Message)
    → (any_where (announces e) taken ≡ true → any_where (announces e) queue ≡ true)
    → any_where (announces e) (taken ++ m ∷ []) ≡ true
    → any_where (announces e) (queue ++ m ∷ []) ≡ true
any_more e m taken queue follows h =
    rw (any_where-append (announces e) queue (m ∷ []))
      (ground (arith, follows, h, any_where-append (announces e) taken (m ∷ [])))

-- What a change of the messages does to a predicate on all events and tasks.
Consistent-mail :
    (mail mail' : Mail) (tasks : List TaskRow) (events : List EventRow)
    → ((e : EventRow) (r : TaskRow) → Fits mail e r → Fits mail' e r)
    → Consistent mail tasks events
    → Consistent mail' tasks events
Consistent-mail mail mail' tasks events f =
    All-imp (λ e. All (Fits mail e) tasks) (λ e. All (Fits mail' e) tasks)
      (λ e. All-imp (Fits mail e) (Fits mail' e) (f e) tasks) events

Fits-claimed :
    (mail : Mail) (messages : List Message) (e : EventRow) (r : TaskRow)
    → Fits mail e r
    → Fits (record mail { claimed = messages }) e r
Fits-claimed mail messages e r h = record {
  bounded = h.bounded;
  queued = h.queued;
  unclaimed = h.unclaimed;
}

-- The claims of the publishers change nothing for the tasks.
pub note_events-Held :
    (claimed : Fallible (List OutboxEvent)) (mail : Mail) (db : Db)
    → Held mail db
    → Held (note_events claimed mail) db
note_events-Held (ok events) mail db h = (
  Consistent-mail mail (note_events (ok events) mail) db.tasks db.events
      (Fits-claimed mail (mail.claimed ++ map message_of events)) h.0,
  h.1,
)
note_events-Held (err e) mail db h = h

Fits-post :
    (mail : Mail) (m : Message) (e : EventRow) (r : TaskRow)
    → Fits mail e r
    → Fits (post true m mail) e r
Fits-post mail m e r h = record {
  bounded = h.bounded;
  queued = λ q. any_more e m mail.taken mail.queue (h.queued q);
  unclaimed = h.unclaimed;
}

pub publish-Held :
    (taken : Bool) (m : Message) (mail : Mail) (db : Db)
    → Held mail db
    → Held (post taken m mail) db
publish-Held false m mail db h = h
publish-Held true m mail db h = (
  Consistent-mail mail (post true m mail) db.tasks db.events (λ e r. Fits-post mail m e r) h.0,
  All-imp (λ e. (is_unpublished e || any_where (announces e) mail.taken) ≡ true)
      (λ e. (is_unpublished e || any_where (announces e) (mail.taken ++ m ∷ [])) ≡ true)
      (λ e q. ground (arith, q, any_where-append (announces e) mail.taken (m ∷ []))) db.events h.1,
)

Fits-published :
    (mail : Mail) (at : Time) (e : EventRow) (r : TaskRow)
    → Fits mail e r
    → Fits mail (published_row at e) r
Fits-published mail at e r h = record {
  bounded = h.bounded;
  queued = h.queued;
  unclaimed = h.unclaimed;
}

mark-Consistent :
    (mail : Mail) (call : Reply) (id token : String) (at : Time) (db : Db)
    → Consistent mail db.tasks db.events
    → Consistent mail
        (mark_published call id token at db).0.tasks
        (mark_published call id token at db).0.events
unfolding mark_published
mark-Consistent mail call id token at db h =
    reply_keeps (λ d. Consistent mail d.tasks d.events) call "mark outbox published" db _ _ h
      (All-update_where (λ e. All (Fits mail e) db.tasks) (is_held id token) (published_row at)
        (λ e _ q.
          All-imp (Fits mail e) (Fits mail (published_row at e)) (λ r. Fits-published mail at e r)
            db.tasks q)
        db.events h)

-- An event is marked after the broker has taken its message.
pub mark-Held :
    (mail : Mail) (call : Reply) (event : OutboxEvent) (token : String) (at : Time) (db : Db)
    → Matches db event
    → any_where (announces_event event) mail.taken ≡ true
    → Held mail db
    → Held mail (mark_published call event.id token at db).0
mark-Held mail call event token at db matches taken h = (
  mark-Consistent mail call event.id token at db h.0,
  published-Sent event call token at (record { db = db; queue = mail.taken }) matches taken h.1,
)

-- A claim that was answered leaves no task waiting under the message's name.
unwaiting :
    (m : Message) (e : EventRow) (tasks : List TaskRow)
    → announces e m ≡ true
    → any_where (is_pending m.notification_id) tasks ≡ false
    → All (λ r. awaits e r ≡ false) tasks
unwaiting m e tasks a none_left =
    All-imp (λ r. is_pending m.notification_id r ≡ false) (λ r. awaits e r ≡ false)
      (λ r q. ground (arith, a, q, eq_iff m.notification_id e.aggregate_id)) tasks
      (any_where→All (is_pending m.notification_id) tasks none_left)

Fits-noted :
    (mail : Mail) (m : Message) (e : EventRow) (r : TaskRow)
    → (announces e m ≡ true → awaits e r ≡ false)
    → Fits mail e r
    → Fits (note_claim answered m mail) e r
unfolding any_where
Fits-noted mail m e r over h = record {
  bounded = h.bounded;
  queued = h.queued;
  unclaimed = λ q.
      ground (arith, over, h.unclaimed q, q, any_where-append (announces e) mail.handled (m ∷ []));
}

pub note_claim-Held :
    (mail : Mail) (m : Message) (db : Db)
    → any_where (is_pending m.notification_id) db.tasks ≡ false
    → Held mail db
    → Held (note_claim answered m mail) db
note_claim-Held mail m db none_left h = (
  All-imp (λ e. All (Fits mail e) db.tasks)
      (λ e. All (Fits (note_claim answered m mail) e) db.tasks)
      (λ e q. elim (Bool-cases (announces e m)) [
        | inl a ↦
            All₂_imp (λ r. awaits e r ≡ false) (Fits mail e) (Fits (note_claim answered m mail) e)
              (λ r over. Fits-noted mail m e r (λ _. over)) db.tasks
              (unwaiting m e db.tasks a none_left) q
        | inr other ↦
            All-imp (Fits mail e) (Fits (note_claim answered m mail) e)
              (λ r. Fits-noted mail m e r (λ a. absurd (ground (arith, a, other)))) db.tasks q
      ])
      db.events h.0,
  h.1,
)

-- A claim together with what the worker then knows.
pub claim_task-Held :
    (mail : Mail) (call : Reply) (clock : Time) (m : Message) (lease : String) (until : Time)
    (db : Db)
    → Held mail (claim_delivery call clock m.notification_id lease until db).0
    → Held (note_claim call m mail) (claim_delivery call clock m.notification_id lease until db).0
claim_task-Held mail answered clock m lease until db h =
    note_claim-Held mail m (claim_delivery answered clock m.notification_id lease until db).0
      (claim-none_pending clock m.notification_id lease until db) h
claim_task-Held mail refused clock m lease until db h = h
claim_task-Held mail lost clock m lease until db h = h

-- What one acknowledgement takes from the queue is no message of an event that it does not announce.
remove-other :
    (e : EventRow) (m : Message) (messages : List Message)
    → announces e m ≡ false
    → any_where (announces e) (remove_first m messages) ≡ any_where (announces e) messages
unfolding any_where remove_first
remove-other e m [] h = refl
remove-other e m (x ∷ messages) h = elim (Bool-cases (same_message m x)) [
  | inl same ↦ rw same (
      ground
        (arith, h, same, eq_iff x.event_id m.event_id, eq_iff x.notification_id m.notification_id))
  | inr other ↦ rw (other, remove-other e m messages h) refl
]

handled-announces :
    (e : EventRow) (m : Message) (messages : List Message)
    → any_where (same_message m) messages ≡ true
    → any_where (announces e) messages ≡ false
    → announces e m ≡ false
unfolding any_where
handled-announces e m [] h q = cc
handled-announces e m (x ∷ messages) h q = elim (Bool-cases (same_message m x)) [
  | inl same ↦
      ground
        (arith, q, same, eq_iff x.event_id m.event_id, eq_iff x.notification_id m.notification_id)
  | inr other ↦ handled-announces e m messages (ground (arith, h, other)) (ground (arith, q))
]

Fits-acknowledged :
    (mail : Mail) (m : Message)
    → any_where (same_message m) mail.handled ≡ true
    → (e : EventRow) (r : TaskRow) → Fits mail e r
    → Fits (record mail { queue = remove_first m mail.queue }) e r
Fits-acknowledged mail m known e r h = record {
  bounded = h.bounded;
  queued = λ q taken.
      rw (remove-other e m mail.queue (handled-announces e m mail.handled known (h.unclaimed q)))
        (h.queued q taken);
  unclaimed = h.unclaimed;
}

-- A message is acknowledged after its claim was answered.
pub acknowledge-Held :
    (mail : Mail) (m : Message) (db : Db)
    → any_where (same_message m) mail.handled ≡ true
    → Held mail db
    → Held (record mail { queue = remove_first m mail.queue }) db
acknowledge-Held mail m db known h = (
  Consistent-mail mail (record mail { queue = remove_first m mail.queue }) db.tasks db.events
      (Fits-acknowledged mail m known) h.0,
  h.1,
)
