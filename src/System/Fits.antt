-- ===== src/System/Fits.antt =====
-- What ties an event of the outbox, a task and the messages together, and which changes of the
-- tables leave it as it is.
use rc_pangjiahui.Prelude.{
  ◌≤◌, ◌<◌, Bool, true, false, ◌&&◌, ◌≡◌, ◌==◌, ◌=ₛ◌, List, [], ◌∷◌, ◌++◌, arith, All, All-imp,
  All-append, any_where, update_where, select_where,
}
use rc_pangjiahui.Prelude.RowLaws.{All-update_where, All-select_where}
use rc_pangjiahui.Notification.Model.{pending, same_status}
use rc_pangjiahui.Store.Tables.{TaskRow, EventRow, has_id}
use rc_pangjiahui.Delivery.Service.{Message}
use rc_pangjiahui.Outbox.Postgres.{announces}
use rc_pangjiahui.System.{Mail, IsUnused}

-- The task waits for the delivery that the event asks for.
abbrev pub awaits : EventRow → TaskRow → Bool
awaits e r = r.id =ₛ e.aggregate_id && same_status r.status pending && e.generation == r.generation

-- No event is ahead of its task. While the task waits for the event, the message is in the queue if
-- the broker has ever taken it, and no worker has claimed the task for it.
pub record Fits (mail : Mail) (e : EventRow) (r : TaskRow) : Type 0 where
  pub bounded : has_id e.aggregate_id r ≡ true → e.generation ≤ r.generation
  pub queued :
      awaits e r ≡ true
      → any_where (announces e) mail.taken ≡ true
      → any_where (announces e) mail.queue ≡ true
  pub unclaimed : awaits e r ≡ true → any_where (announces e) mail.handled ≡ false

abbrev pub Consistent : Mail → List TaskRow → List EventRow → Type 0
Consistent mail tasks events = All (λ e. All (Fits mail e) tasks) events

-- A change of a task that makes it wait, if at all, for a generation of its own.
pub record Renews (r r' : TaskRow) : Type 0 where
  pub same_id : r'.id ≡ r.id
  pub grows : r.generation ≤ r'.generation
  pub anew : same_status r'.status pending ≡ true → r.generation < r'.generation

module _ (mail : Mail) where
  pub Fits-renewed : (e : EventRow) (r r' : TaskRow) → Renews r r' → Fits mail e r → Fits mail e r'
  Fits-renewed e r r' n h =
      let never = λ (q : awaits e r' ≡ true). overtaken q in
      record {
        bounded = λ q. ground (arith, n.same_id, n.grows, h.bounded);
        queued = λ q _. absurd (never q);
        unclaimed = λ q. absurd (never q);
      }
    where
      overtaken : awaits e r' ≡ true → ⊥
      overtaken q = ground (arith, n.same_id, n.anew, h.bounded)

  pub Consistent-update :
      (p : TaskRow → Bool) (f : TaskRow → TaskRow)
      → ((r : TaskRow) → p r ≡ true → Renews r (f r))
      → (tasks : List TaskRow) (events : List EventRow) → Consistent mail tasks events
      → Consistent mail (update_where p f tasks) events
  Consistent-update p f renew tasks events =
      All-imp (λ e. All (Fits mail e) tasks) (λ e. All (Fits mail e) (update_where p f tasks))
        (λ e. All-update_where (Fits mail e) p f (λ r q. Fits-renewed e r (f r) (renew r q)) tasks)
        events

  pub Consistent-select :
      (p : TaskRow → Bool) (q : EventRow → Bool) (tasks : List TaskRow) (events : List EventRow)
      → Consistent mail tasks events
      → Consistent mail (select_where p tasks) (select_where q events)
  Consistent-select p q tasks events h =
      All-select_where (λ e. All (Fits mail e) (select_where p tasks)) q events
        (All-imp (λ e. All (Fits mail e) tasks) (λ e. All (Fits mail e) (select_where p tasks))
          (λ e. All-select_where (Fits mail e) p tasks) events h)

  -- An event that no message has announced yet.
  unheard :
      (e : EventRow) (messages : List Message)
      → any_where (λ m. m.event_id =ₛ e.id) messages ≡ false
      → any_where (announces e) messages ≡ false
  unfolding any_where
  unheard e [] h = h
  unheard e (m ∷ messages) h = ground (arith, unheard e messages)

  pub Fits-new :
      (e : EventRow)
      → IsUnused mail e.id
      → (r : TaskRow) → (has_id e.aggregate_id r ≡ true → e.generation ≤ r.generation)
      → Fits mail e r
  Fits-new e unused r b = record {
    bounded = b;
    queued = λ _ q. ground (arith, q, unheard e mail.taken unused.not_taken);
    unclaimed = λ _. unheard e mail.handled unused.not_handled;
  }

  -- A new event, at the end of the table.
  pub Consistent-event :
      (e : EventRow)
      → IsUnused mail e.id
      → (tasks : List TaskRow) (events : List EventRow)
      → All (λ r. has_id e.aggregate_id r ≡ true → e.generation ≤ r.generation) tasks
      → Consistent mail tasks events
      → Consistent mail tasks (events ++ e ∷ [])
  Consistent-event e unused tasks events b h =
      All-append (λ x. All (Fits mail x) tasks) events (e ∷ []) h
        (
          All-imp (λ r. has_id e.aggregate_id r ≡ true → e.generation ≤ r.generation) (Fits mail e)
              (λ r. Fits-new e unused r) tasks b,
          tt,
        )

  Fits-stranger : (e : EventRow) (r : TaskRow) → has_id e.aggregate_id r ≡ false → Fits mail e r
  Fits-stranger e r other = record {
    bounded = λ q. absurd (ground (arith, q, other));
    queued = λ q _. absurd (ground (arith, q, other));
    unclaimed = λ q. absurd (ground (arith, q, other));
  }

  -- A new task, which no event is about.
  pub Consistent-task :
      (r : TaskRow) (tasks : List TaskRow) (events : List EventRow)
      → All (λ e. has_id e.aggregate_id r ≡ false) events
      → Consistent mail tasks events
      → Consistent mail (tasks ++ r ∷ []) events
  Consistent-task r tasks [] other h = tt
  Consistent-task r tasks (e ∷ events) other h = (
    All-append (Fits mail e) tasks (r ∷ []) h.0 (Fits-stranger e r other.0, tt),
    Consistent-task r tasks events other.1 h.1,
  )
