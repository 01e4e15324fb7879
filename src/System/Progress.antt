-- ===== src/System/Progress.antt =====
-- A task that waits for its delivery can always be served, from whatever state the roles have come to.
use rc_pangjiahui.Prelude.{
  String, Bool, true, false, not, ◌&&◌, ◌||◌, ◌≡◌, ◌=ₛ◌, refl, subst, sym, ap, ◌∙◌, inl, inr, some,
  none, List, [], ◌∷◌, ◌++◌, map, arith, eq_iff, pos, ◌+ℤ◌, +ℤ_parts, length, any_where, find_where,
  update_where, select_where, order_by, Bool-cases, Option-cases,
}
use rc_pangjiahui.Prelude.RowLaws.{
  find_where-none, find_where-passes, any_where-append, All-find_where,
}
use rc_pangjiahui.Notification.Model.{Time, pending, Status, Outcome, AttemptResult, same_status}
use rc_pangjiahui.Store.Tables.{TaskRow, EventRow, answered, event_has_id}
use rc_pangjiahui.Store.Delivery.{
  is_pending, is_leased, claim_row, claim_delivery, result_row, result_checks,
  apply_delivery_result,
}
use rc_pangjiahui.Store.Outbox.{
  Engine, is_unpublished, is_claimable, is_free, event_before, outbox_candidates, claim_event_row,
  event_of, is_candidate, claim_outbox,
}
use rc_pangjiahui.Delivery.Service.{Message}
use rc_pangjiahui.Delivery.Sender.Diagnostics.{take_all}
use rc_pangjiahui.Outbox.{message_of}
use rc_pangjiahui.Outbox.Postgres.{Broker}
use rc_pangjiahui.System.{
  System, same_message, Step, claim_events, claim_task, apply_result, Reach, here, next,
  Reach-trans, start,
}
use rc_pangjiahui.System.Safety.{is_owed, no_task_lost}
use rc_pangjiahui.Prelude.RowSearch.{any_where-found, any_where-order_by, any_where-selected}

claimed-leased :
    (clock : Time) (id lease : String) (until : Time) (tasks : List TaskRow)
    → any_where (is_pending id) tasks ≡ true
    → any_where
        (is_leased id lease)
        (update_where (is_pending id) (claim_row clock lease until) tasks)
      ≡ true
unfolding any_where update_where
claimed-leased clock id lease until [] h = h
claimed-leased clock id lease until (r ∷ tasks) h =
    ground (arith, h, claimed-leased clock id lease until tasks, eq_iff lease lease)

abbrev pub is_delivered : String → TaskRow → Bool
is_delivered id r = r.id =ₛ id && same_status r.status Status.delivered

-- The answer of a supplier that has taken the notification.
abbrev success : AttemptResult
success = record {
  outcome = Outcome.delivered;
  http_status = 200;
  error_code = "";
  error_message = "";
  next_attempt_at = none;
  completed_at = pos 0;
}

success-delivered :
    (id lease : String) (tasks : List TaskRow)
    → any_where (is_leased id lease) tasks ≡ true
    → any_where (is_delivered id) (update_where (is_leased id lease) (result_row success) tasks)
      ≡ true
unfolding any_where update_where
success-delivered id lease [] h = h
success-delivered id lease (r ∷ tasks) h = ground (arith, h, success-delivered id lease tasks)

abbrev pub IsDone : String → System → Type 0
IsDone id t = any_where (is_delivered id) t.db.tasks ≡ true

-- A worker that takes a message of the queue, and records a success.
served_from_queue :
    (s : System) (m : Message)
    → any_where (same_message m) s.mail.queue ≡ true
    → any_where (is_pending m.notification_id) s.db.tasks ≡ true
    → (t : System) × Reach s t × IsDone m.notification_id t
unfolding claim_delivery apply_delivery_result result_checks
served_from_queue s m there waits =
    let claimed = claimed-leased (pos 0) m.notification_id "lease" (pos 0) s.db.tasks waits in
    (
      _,
      next (next here (claim_task answered (pos 0) m "lease" (pos 0) there))
          (apply_result answered m.notification_id "lease" success (ground arith)),
      rw claimed (success-delivered m.notification_id "lease" _ claimed),
    )

-- A time at which no claim holds the event.
abbrev free_time : EventRow → Time
free_time e = elim e.claim_until [ none ↦ pos 0 | some until ↦ until +ℤ pos 1 ]

free_time-is_free : (e : EventRow) → is_free e.claim_until (free_time e) ≡ true
free_time-is_free e = elim (Option-cases e.claim_until) [
  | inl never ↦ rw never refl
  | inr (until, taken) ↦ rw taken (ground (arith, +ℤ_parts until (pos 1)))
]

-- A server in which nothing is locked.
abbrev idle : Engine
idle = record { text_before = λ a b. false; locked = λ id. false }

abbrev all_candidates : EventRow → List EventRow → List EventRow
all_candidates e events =
    order_by (event_before idle)
      (select_where (λ x. is_claimable (free_time e) x && not (idle.locked x.id)) events)

candidates-found :
    (q : EventRow → Bool) (e : EventRow) (events : List EventRow)
    → find_where q events ≡ some e
    → is_unpublished e ≡ true
    → is_candidate
        (outbox_candidates idle (free_time e) (length (all_candidates e events)) events)
        e
      ≡ true
unfolding outbox_candidates
candidates-found q e events found new =
    let p = λ (x : EventRow). is_claimable (free_time e) x && not (idle.locked x.id) in
    rw (take_all (length (all_candidates e events)) (all_candidates e events) (omega arith)) (
      any_where-order_by (event_has_id e.id) (event_before idle) (select_where p events)
      ∙ any_where-selected (event_has_id e.id) p events (
          any_where-found q (λ x. event_has_id e.id x && p x) events {x = e} found
            (ground (arith, new, free_time-is_free e, eq_iff e.id e.id))))

any_where-map {ℓ κ} :
    {A : Type ℓ} {B : Type κ} (q : B → Bool) (f : A → B) (rs : List A)
    → any_where q (map f rs) ≡ any_where (λ x. q (f x)) rs
unfolding any_where
any_where-map q f [] = refl
any_where-map q f (r ∷ rs) = ap (λ b. q (f r) || b) (any_where-map q f rs)

abbrev announcement : EventRow → Message
announcement e = record { event_id = e.id; notification_id = e.aggregate_id }

last_is_there :
    (m : Message) (queue : List Message) → any_where (same_message m) (queue ++ m ∷ []) ≡ true
unfolding any_where
last_is_there m queue = ground (
  arith,
  any_where-append (same_message m) queue (m ∷ []),
  eq_iff m.event_id m.event_id,
  eq_iff m.notification_id m.notification_id,
)

-- A publisher that claims the event and publishes it.
served_from_outbox :
    (s : System) (q : EventRow → Bool) (e : EventRow)
    → find_where q s.db.events ≡ some e
    → is_unpublished e ≡ true
    → any_where (is_pending e.aggregate_id) s.db.tasks ≡ true
    → (t : System) × Reach s t × IsDone e.aggregate_id t
unfolding claim_outbox
served_from_outbox s q e found new waits =
    let limit = length (all_candidates e s.db.events) in
    let candidates = outbox_candidates idle (free_time e) limit s.db.events in
    let row = λ (x : EventRow). event_of (claim_event_row "token" (pos 0) x) in
    let mine : List EventRow = select_where (is_candidate candidates) s.db.events in
    let m = announcement e in
    let heard : any_where (same_message m) (s.mail.claimed ++ map message_of (map row mine))
        ≡ true =
      ground (
        arith,
        any_where-append (same_message m) s.mail.claimed (map message_of (map row mine)),
        any_where-map (same_message m) message_of (map row mine),
        any_where-map (λ x. same_message m (message_of x)) row mine,
        any_where-selected (λ x. same_message m (message_of (row x))) (is_candidate candidates)
            s.db.events
            (any_where-found q
              (λ x. same_message m (message_of (row x)) && is_candidate candidates x) s.db.events
              {x = e} found
              (ground (
                arith,
                candidates-found q e s.db.events found new,
                eq_iff e.id e.id,
                eq_iff e.aggregate_id e.aggregate_id,
              ))),
      ) in
    let (t, rest, served) = served_from_queue _ m (last_is_there m s.mail.queue) waits in
    (
      t,
      Reach-trans
          (next (next here (claim_events answered idle (free_time e) limit "token" (pos 0)))
            (Step.publish Broker.confirmed m heard))
          rest,
      served,
    )

-- From every state that the roles can reach from empty tables, by steps whose identifiers are new,
-- further steps lead to a state in which a given task that is pending is delivered.
pub pending_served :
    {s : System}
    → Reach start s
    → (id : String) → any_where (is_pending id) s.db.tasks ≡ true
    → (t : System) × Reach s t × IsDone id t
pending_served {s} run id waits = elim (Option-cases (find_where (is_pending id) s.db.tasks)) [
  | inl nobody ↦ absurd (ground (arith, waits, find_where-none (is_pending id) s.db.tasks nobody))
  | inr (r, found) ↦
      let waiting_is_owed = λ (x : TaskRow).
        same_status x.status pending ≡ true
        → any_where (is_owed s.mail.queue x) s.db.events ≡ true in
      let hit = find_where-passes (is_pending id) s.db.tasks found in
      let same : r.id ≡ id = (eq_iff r.id id).0 (ground (arith, hit)) in
      let owed =
        (All-find_where waiting_is_owed (is_pending id) s.db.tasks found (no_task_lost run)).0
          (ground (arith, hit)) in
      elim (Option-cases (find_where (is_owed s.mail.queue r) s.db.events)) [
        | inl none_owed ↦
            absurd
              (ground (arith, owed, find_where-none (is_owed s.mail.queue r) s.db.events none_owed))
        | inr (e, event) ↦
            let owes = find_where-passes (is_owed s.mail.queue r) s.db.events event in
            let about : e.aggregate_id ≡ id =
              (eq_iff e.aggregate_id r.id).0 (ground (arith, owes)) ∙ same in
            let waits_for_it =
              subst (λ x. any_where (is_pending x) s.db.tasks ≡ true) (sym about) waits in
            subst (λ x. (t : System) × Reach s t × IsDone x t) about
              (elim (Bool-cases (is_unpublished e)) [
                | inl new ↦ served_from_outbox s (is_owed s.mail.queue r) e event new waits_for_it
                | inr old ↦
                    served_from_queue s (announcement e) (ground (arith, owes, old)) waits_for_it
              ])
      ]
]
