-- ===== src/System/Roles.antt =====
-- A pass of internal/outbox is a run of steps, so other roles may come in between.
use rc_pangjiahui.Prelude.{
  ℕ, String, Bool, true, false, ◌≡◌, refl, subst, sym, ap, ◌∙◌, ◌+ℤ◌, none, inl, inr, List, [], ◌∷◌,
  ◌++◌, map, arith, eq_iff, All, All-imp, any_where, Option-cases,
}
use rc_pangjiahui.Prelude.RowLaws.{any_where-append}
use rc_pangjiahui.Notification.Model.{OutboxEvent}
use rc_pangjiahui.Store.Tables.{Fallible-cases}
use rc_pangjiahui.Store.Outbox.{claim_outbox, mark_published}
use rc_pangjiahui.Store.Invariant.{Inv}
use rc_pangjiahui.Delivery.Service.{Message}
use rc_pangjiahui.Outbox.{Config, Readings, message_of, publish_all, run_once}
use rc_pangjiahui.Outbox.Postgres.{World, Broker, Calls, publish, repository}
use rc_pangjiahui.Outbox.Laws.{
  Matches, announces_event, mark_published-Matches, claim_outbox-Matches,
}
use rc_pangjiahui.System.{
  Mail, System, same_message, takes, post, note_events, Step, claim_events, mark, Reach, here, next,
}

-- The tables and the queue as a publisher sees them.
abbrev world : System → World
world s = record { db = s.db; queue = s.mail.queue }

-- A run of steps that leads to the given tables and queue.
abbrev pub Arrives : System → World → Type 0
Arrives s w = (mail : Mail) × Reach s (record { db = w.db; mail = mail }) × (mail.queue ≡ w.queue)

publish-world :
    (b : Broker) (m : Message) (s : System)
    → (publish b m (world s)).0 ≡ world (record s { mail = post (takes b) m s.mail })
unfolding publish
publish-world Broker.confirmed m s = refl
publish-world (Broker.unconfirmed true e) m s = refl
publish-world (Broker.unconfirmed false e) m s = refl

-- A publication without an error: the broker has taken the message.
publish-takes :
    (b : Broker) (event : OutboxEvent) (s : System)
    → (publish b (message_of event) (world s)).1 ≡ none
    → any_where (announces_event event) (post (takes b) (message_of event) s.mail).taken ≡ true
unfolding publish any_where
publish-takes Broker.confirmed event s h = ground (
  arith,
  any_where-append (announces_event event) s.mail.taken (message_of event ∷ []),
  eq_iff event.id event.id,
  eq_iff event.aggregate_id event.aggregate_id,
)
publish-takes (Broker.unconfirmed taken e) event s h = absurd (ground (arith, h))

arrived : (s t : System) (w : World) → w ≡ world t → Reach s t → Arrives s w
arrived s t w e run = rw e (t.mail, run, refl)

still_claimed :
    (taken : Bool) (m : Message) (mail : Mail) (events : List OutboxEvent)
    → All (λ event. any_where (same_message (message_of event)) mail.claimed ≡ true) events
    → All
        (λ event. any_where (same_message (message_of event)) (post taken m mail).claimed ≡ true)
        events
still_claimed true m mail events h = h
still_claimed false m mail events h = h

-- A publisher has claimed the events that it hears of.
own_claims :
    (older : List Message) (events : List OutboxEvent)
    → All
        (λ event.
          any_where (same_message (message_of event)) (older ++ map message_of events) ≡ true)
        events
unfolding any_where
own_claims older [] = tt
own_claims older (event ∷ events) = (
  ground (
    arith,
    any_where-append (same_message (message_of event)) older (map message_of (event ∷ events)),
    eq_iff event.id event.id,
    eq_iff event.aggregate_id event.aggregate_id,
  ),
  All-imp (λ x. any_where (same_message (message_of x)) (older ++ map message_of events) ≡ true)
      (λ x.
        any_where (same_message (message_of x)) (older ++ map message_of (event ∷ events)) ≡ true)
      (λ x q. ground (
        arith,
        q,
        any_where-append (same_message (message_of x)) older (map message_of events),
        any_where-append (same_message (message_of x)) older (map message_of (event ∷ events)),
      ))
      events (own_claims older events),
)

publish_all-Arrives :
    (calls : Calls) (env : Readings) (events : List OutboxEvent) (n : ℕ) (observed : List String)
    (s t : System) (w : World)
    → w ≡ world t
    → Reach s t
    → All (λ event. any_where (same_message (message_of event)) t.mail.claimed ≡ true) events
    → All (Matches t.db) events
    → Arrives s (publish_all (repository calls) env events n observed w).0
unfolding publish_all
publish_all-Arrives calls env [] n observed s t w e run mine known = arrived s t w e run
publish_all-Arrives calls env (event ∷ events) n observed s t w e run mine known =
    let b = calls.broker (message_of event) in
    let at = env.marked_at event.id in
    let call = calls.mark event.id in
    let w₁ = (publish b (message_of event) w).0 in
    let t₁ : System = record t { mail = post (takes b) (message_of event) t.mail } in
    let e₁ : w₁ ≡ world t₁ =
      ap (λ x. (publish b (message_of event) x).0) e ∙ publish-world b (message_of event) t in
    let run₁ : Reach s t₁ = next run (Step.publish b (message_of event) mine.0) in
    let marked = mark_published call event.id env.token at w₁.db in
    let t₂ : System = record t₁ { db = (mark_published call event.id env.token at t.db).0 } in
    let e₂ : record w₁ { db = marked.0 } ≡ world t₂ =
      ap (λ (x : World). record x { db = (mark_published call event.id env.token at x.db).0 }) e₁ in
    elim (Option-cases (publish b (message_of event) w).1) [
      | inr (x, failed) ↦ rw (failed, publish_all) (arrived s t₁ w₁ e₁ run₁)
      | inl fine ↦
          let taken =
            publish-takes b event t
              (subst (λ x. (publish b (message_of event) x).1 ≡ none) e fine) in
          let run₂ : Reach s t₂ = next run₁ (mark call event env.token at known.0 taken) in
          elim (Fallible-cases marked.1) [
            | inr (x, failed) ↦
                rw (fine, publish_all, failed) (arrived s t₂ (record w₁ { db = marked.0 }) e₂ run₂)
            | inl (applied, answer) ↦
                rw (fine, publish_all, answer)
                  (publish_all-Arrives calls env events _ _ s t₂ (record w₁ { db = marked.0 }) e₂
                    run₂ (still_claimed (takes b) (message_of event) t.mail events mine.1)
                    (All-imp (Matches t.db) (Matches t₂.db)
                      (λ k m. mark_published-Matches k call event.id env.token at t.db m) events
                      known.1))
          ]
    ]

-- A pass of the publisher is a run of steps: the claim of its events, and for each of them the
-- publication and then the mark.
pub run_once-Arrives :
    (calls : Calls) (config : Config) (env : Readings) (s : System)
    → Inv s.db
    → Arrives s (run_once (repository calls) config env (world s)).0
unfolding run_once
run_once-Arrives calls config env s inv =
    let until = env.now +ℤ config.claim_ttl in
    let claimed =
      claim_outbox calls.claim calls.engine env.now config.batch_size env.token until s.db in
    let t : System = record { db = claimed.0; mail = note_events claimed.1 s.mail } in
    let first : Reach s t =
      next here (claim_events calls.claim calls.engine env.now config.batch_size env.token until) in
    elim (Fallible-cases claimed.1) [
      | inr (e, failed) ↦
          rw (failed, run_once) (t.mail, first, ap (λ x. (note_events x s.mail).queue) failed)
      | inl (events, answer) ↦
          rw (answer, run_once)
            (publish_all-Arrives calls env events 0 [] s t
              (record { db = claimed.0; queue = s.mail.queue })
              (ap (λ x. record { db = claimed.0; queue = (note_events x s.mail).queue })
                (sym answer))
              first
              (subst
                (λ x.
                  All
                    (λ event.
                      any_where (same_message (message_of event)) (note_events x s.mail).claimed
                      ≡ true)
                    events)
                (sym answer) (own_claims s.mail.claimed events))
              (claim_outbox-Matches calls.claim calls.engine env.now config.batch_size env.token
                until s.db events inv answer))
    ]
