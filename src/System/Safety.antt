-- ===== src/System/Safety.antt =====
-- No task that waits for its delivery is lost, in whatever order the roles take their steps.
use rc_pangjiahui.Prelude.{
  Bool, true, ◌&&◌, ◌||◌, ◌≡◌, refl, inl, inr, List, [], ◌∷◌, arith, eq_iff, All, All₂_imp,
  All-transpose, any_where, Bool-cases,
}
use rc_pangjiahui.Notification.Model.{pending, same_status}
use rc_pangjiahui.Store.Tables.{TaskRow, EventRow, is_for}
use rc_pangjiahui.Store.Outbox.{is_unpublished, claim_outbox}
use rc_pangjiahui.Store.Invariant.{Inv}
use rc_pangjiahui.Store.Invariant.Claims.{
  claim_delivery-Inv, apply_delivery_result-Inv, claim_outbox-Inv, mark_published-Inv,
  replay_dead_atomic-Inv,
}
use rc_pangjiahui.Store.Invariant.Intake.{create_or_get-Inv}
use rc_pangjiahui.Store.Invariant.Schedule.{schedule_due-Inv}
use rc_pangjiahui.Store.Invariant.Removal.{delete_terminal_before-Inv}
use rc_pangjiahui.Delivery.Service.{Message}
use rc_pangjiahui.Outbox.Postgres.{announces}
use rc_pangjiahui.System.{
  System, Mail, takes, Step, accept, claim_events, publish, mark, claim_task, apply_result,
  acknowledge, schedule, replay, remove, Reach, here, next, start,
}
use rc_pangjiahui.System.Fits.{Fits}
use rc_pangjiahui.System.Writes.{
  Held, Marked, claim_delivery-Held, apply_delivery_result-Held, claim_outbox-Held,
  delete_terminal_before-Held, create_or_get-Held, replay_dead_atomic-Held,
}
use rc_pangjiahui.System.Rounds.{schedule_due-Held}
use rc_pangjiahui.System.Acts.{
  note_events-Held, publish-Held, mark-Held, claim_task-Held, acknowledge-Held,
}

pub record IsSound (s : System) : Type 0 where
  pub inv : Inv s.db
  pub held : Held s.mail s.db

pub Step-IsSound : {s t : System} → IsSound s → Step s t → IsSound t
Step-IsSound {s} h (accept calls task event fresh unused) = record {
  inv = create_or_get-Inv calls task event s.db fresh h.inv;
  held = create_or_get-Held s.mail calls task event s.db fresh unused h.inv.owned h.held;
}
Step-IsSound {s} h (claim_events call engine now limit token until) = record {
  inv = claim_outbox-Inv call engine now limit token until s.db h.inv;
  held =
      note_events-Held (claim_outbox call engine now limit token until s.db).1 s.mail
        (claim_outbox call engine now limit token until s.db).0
        (claim_outbox-Held s.mail call engine now limit token until s.db h.held);
}
Step-IsSound {s} h (publish b m known) = record {
  inv = h.inv;
  held = publish-Held (takes b) m s.mail s.db h.held;
}
Step-IsSound {s} h (mark call event token at matches taken) = record {
  inv = mark_published-Inv call event.id token at s.db h.inv;
  held = mark-Held s.mail call event token at s.db matches taken h.held;
}
Step-IsSound {s} h (claim_task call clock m lease until there) = record {
  inv = claim_delivery-Inv call clock m.notification_id lease until s.db h.inv;
  held =
      claim_task-Held s.mail call clock m lease until s.db
        (claim_delivery-Held s.mail call clock m.notification_id lease until s.db h.held);
}
Step-IsSound {s} h (apply_result call id lease result complete) = record {
  inv = apply_delivery_result-Inv call id lease result s.db complete h.inv;
  held = apply_delivery_result-Held s.mail call id lease result s.db h.held;
}
Step-IsSound {s} h (acknowledge m known) = record {
  inv = h.inv;
  held = acknowledge-Held s.mail m s.db known h.held;
}
Step-IsSound {s} h (schedule calls now limit unused) = record {
  inv = schedule_due-Inv calls now limit s.db h.inv;
  held = schedule_due-Held s.mail calls now limit s.db h.inv unused h.held;
}
Step-IsSound {s} h (replay calls id now event_id unused) = record {
  inv = replay_dead_atomic-Inv calls id now event_id s.db h.inv;
  held = replay_dead_atomic-Held s.mail calls id now event_id s.db h.inv unused h.held;
}
Step-IsSound {s} h (remove call engine cutoff limit) = record {
  inv = delete_terminal_before-Inv call engine cutoff limit s.db h.inv;
  held = delete_terminal_before-Held s.mail call engine cutoff limit s.db h.held;
}

pub Reach-IsSound : {s t : System} → IsSound s → Reach s t → IsSound t
Reach-IsSound h here = h
Reach-IsSound h (next r step) = Step-IsSound (Reach-IsSound h r) step

pub start-IsSound : IsSound start
start-IsSound = record {
  inv = record {
    shapes = tt;
    unique_ids = tt;
    unique_keys = tt;
    unique_events = tt;
    unique_generations = tt;
    owned = tt;
    covered = tt;
  };
  held = (tt, tt);
}

-- The event asks for the delivery that the task waits for, and is still to be published or has its
-- message in the queue.
abbrev pub is_owed : List Message → TaskRow → EventRow → Bool
is_owed queue r e =
    is_for r.id r.generation e && (is_unpublished e || any_where (announces e) queue)

owed :
    (mail : Mail) (r : TaskRow)
    → same_status r.status pending ≡ true
    → (events : List EventRow) → any_where (is_for r.id r.generation) events ≡ true
    → All (λ e. Fits mail e r) events
    → Marked mail events
    → any_where (is_owed mail.queue r) events ≡ true
unfolding any_where
owed mail r waits [] h f m = cc
owed mail r waits (e ∷ events) h f m = elim (Bool-cases (is_for r.id r.generation e)) [
  | inl for_it ↦ elim (Bool-cases (is_unpublished e)) [
    | inl new ↦ rw (for_it, new) refl
    | inr published ↦
        let there =
          f.0.queued
            (ground (arith, waits, for_it, eq_iff e.aggregate_id r.id, eq_iff r.id e.aggregate_id))
            (ground (arith, published, m.0)) in
        rw (for_it, published, there) refl
  ]
  | inr other ↦ rw other (owed mail r waits events (ground (arith, h, other)) f.1 m.1)
]

-- In every state that the roles can reach from empty tables, however their steps interleave and
-- whatever the server, the broker and the suppliers answer, each pending task has an event for its
-- generation that is not yet marked as published or whose message is in the broker's queue. The
-- identifiers that the steps bring in are new.
pub no_task_lost :
    {s : System}
    → Reach start s
    → All
        (λ r.
          same_status r.status pending ≡ true
          → any_where (is_owed s.mail.queue r) s.db.events ≡ true)
        s.db.tasks
no_task_lost {s} run =
    let sound = Reach-IsSound start-IsSound run in
    All₂_imp (λ r. any_where (is_for r.id r.generation) s.db.events ≡ true)
      (λ r. All (λ e. Fits s.mail e r) s.db.events) _
      (λ r covered fits waits. owed s.mail r waits s.db.events covered fits sound.held.1) s.db.tasks
      sound.inv.covered (All-transpose (Fits s.mail) s.db.events s.db.tasks sound.held.0)
