-- ===== src/Outbox/Laws.antt =====
-- What a pass of the publisher does to the tables and to the broker.
use rc_pangjiahui.Prelude.{
  =ₛ_sym, ◌=ₛ◌, All₂_imp, ℕ, String, Bool, true, false, ◌&&◌, ◌||◌, ◌≡◌, refl, subst, sym, ◌+ℤ◌,
  none, List, [], ◌∷◌, ◌++◌, arith, eq_iff, All, All-imp, All-map, any_where, update_where,
  select_where, Option-cases, inl, inr,
}
use rc_pangjiahui.Prelude.RowLaws.{
  any_where-append, All-update_where, All-update_into, All-select_into,
}
use rc_pangjiahui.Prelude.DistinctRows.{DistinctBy-agree}
use rc_pangjiahui.Notification.Model.{Time, OutboxEvent}
use rc_pangjiahui.Store.Tables.{
  Db, ok, Fallible-cases, Reply, answered, refused, lost, event_has_id,
}
use rc_pangjiahui.Store.Outbox.{
  Engine, is_unpublished, claim_event_row, event_of, is_candidate, outbox_candidates, claim_outbox,
  published_row, is_held, mark_published,
}
use rc_pangjiahui.Store.Invariant.{Inv, same_event}
use rc_pangjiahui.Store.Invariant.Claims.{reply_keeps, claim_outbox-Inv, mark_published-Inv}
use rc_pangjiahui.Delivery.Service.{Message}
use rc_pangjiahui.Outbox.{Config, Readings, message_of, publish_all, run_once}
use rc_pangjiahui.Outbox.Postgres.{World, Broker, Calls, publish, repository, announces, Sent}

-- The rows with the identifier of an event have its aggregate.
abbrev pub Matches : Db → OutboxEvent → Type 0
Matches db event =
    All (λ r. event_has_id event.id r ≡ true → r.aggregate_id ≡ event.aggregate_id) db.events

publish-db : (b : Broker) (m : Message) (w : World) → (publish b m w).0.db ≡ w.db
unfolding publish
publish-db Broker.confirmed m w = refl
publish-db (Broker.unconfirmed true e) m w = refl
publish-db (Broker.unconfirmed false e) m w = refl

Sent-more : (m : Message) (w : World) → Sent w → Sent (record w { queue = w.queue ++ m ∷ [] })
Sent-more m w =
    All-imp (λ e. (is_unpublished e || any_where (announces e) w.queue) ≡ true)
      (λ e. (is_unpublished e || any_where (announces e) (w.queue ++ m ∷ [])) ≡ true)
      (λ e q. ground (arith, q, any_where-append (announces e) w.queue (m ∷ []))) w.db.events

publish-Sent : (b : Broker) (m : Message) (w : World) → Sent w → Sent (publish b m w).0
unfolding publish
publish-Sent Broker.confirmed m w = Sent-more m w
publish-Sent (Broker.unconfirmed true e) m w = Sent-more m w
publish-Sent (Broker.unconfirmed false e) m w = λ sent. sent

-- A publication without an error leaves the message in the broker.
publish-confirmed :
    (b : Broker) (m : Message) (w : World)
    → (publish b m w).1 ≡ none
    → (publish b m w).0.queue ≡ w.queue ++ m ∷ []
unfolding publish
publish-confirmed Broker.confirmed m w h = refl
publish-confirmed (Broker.unconfirmed taken e) m w h = absurd (ground arith)

-- Whether a message announces an event of the loop.
abbrev pub announces_event : OutboxEvent → Message → Bool
announces_event event m = m.event_id =ₛ event.id && m.notification_id =ₛ event.aggregate_id

pub published-Sent :
    (event : OutboxEvent) (call : Reply) (token : String) (at : Time) (w : World)
    → Matches w.db event
    → any_where (announces_event event) w.queue ≡ true
    → Sent w
    → Sent (record w { db = (mark_published call event.id token at w.db).0 })
unfolding mark_published
published-Sent event call token at w matches taken sent =
    reply_keeps (λ db. Sent (record w { db = db })) call "mark outbox published" w.db _ _ sent
      (All-update_into
        (λ e.
          (event_has_id event.id e ≡ true → e.aggregate_id ≡ event.aggregate_id)
          × ((is_unpublished e || any_where (announces e) w.queue) ≡ true))
        (λ e. (is_unpublished e || any_where (announces e) w.queue) ≡ true) (is_held event.id token)
        (published_row at)
        (λ e held h.
          let same_id : e.id ≡ event.id = ground (arith, held, eq_iff e.id event.id) in
          let same_aggregate = h.0 (ground (arith, held)) in rw (same_id, same_aggregate) taken)
        (λ e _ h. h.1) w.db.events
        (All₂_imp (λ e. event_has_id event.id e ≡ true → e.aggregate_id ≡ event.aggregate_id)
          (λ e. (is_unpublished e || any_where (announces e) w.queue) ≡ true) _ (λ e m h. (m, h))
          w.db.events matches sent))

pub mark_published-Matches :
    (known : OutboxEvent) (call : Reply) (id token : String) (at : Time) (db : Db)
    → Matches db known
    → Matches (mark_published call id token at db).0 known
unfolding mark_published
mark_published-Matches known call id token at db h =
    reply_keeps (λ d. Matches d known) call "mark outbox published" db _ _ h
      (All-update_where (λ r. event_has_id known.id r ≡ true → r.aggregate_id ≡ known.aggregate_id)
        (is_held id token) (published_row at) (λ r _ q. q) db.events h)

publish-taken :
    (b : Broker) (event : OutboxEvent) (w : World)
    → (publish b (message_of event) w).1 ≡ none
    → any_where (announces_event event) (publish b (message_of event) w).0.queue ≡ true
unfolding any_where
publish-taken b event w h =
    rw
      (
        publish-confirmed b (message_of event) w h,
        any_where-append (announces_event event) w.queue (message_of event ∷ []),
      )
      (ground (arith, eq_iff event.id event.id, eq_iff event.aggregate_id event.aggregate_id))

-- The loop keeps the invariant of the tables and the promise of the outbox.
publish_all_keeps :
    (calls : Calls) (env : Readings) (events : List OutboxEvent) (n : ℕ) (observed : List String)
    (w : World)
    → Inv w.db
    → Sent w
    → All (Matches w.db) events
    → Inv (publish_all (repository calls) env events n observed w).0.db
      × Sent (publish_all (repository calls) env events n observed w).0
unfolding publish_all
publish_all_keeps calls env [] n observed w inv sent known = (inv, sent)
publish_all_keeps calls env (event ∷ events) n observed w inv sent known =
    let b = calls.broker (message_of event) in
    let w₁ = (publish b (message_of event) w).0 in
    let inv₁ : Inv w₁.db = subst Inv (sym (publish-db b (message_of event) w)) inv in
    let sent₁ = publish-Sent b (message_of event) w sent in
    let marked =
      mark_published (calls.mark event.id) event.id env.token (env.marked_at event.id) w₁.db in
    elim (Option-cases (publish b (message_of event) w).1) [
      | inr (e, failed) ↦ rw (failed, publish_all) (inv₁, sent₁)
      | inl fine ↦
          let inv₂ =
            mark_published-Inv (calls.mark event.id) event.id env.token (env.marked_at event.id)
              w₁.db inv₁ in
          let sent₂ : Sent (record w₁ { db = marked.0 }) =
            published-Sent event (calls.mark event.id) env.token (env.marked_at event.id) w₁
              (subst (λ db. Matches db event) (sym (publish-db b (message_of event) w)) known.0)
              (publish-taken b event w fine) sent₁ in
          elim (Fallible-cases marked.1) [
            | inr (e, failed) ↦ rw (fine, publish_all, failed) (inv₂, sent₂)
            | inl (applied, answer) ↦
                rw (fine, publish_all, answer)
                  (publish_all_keeps calls env events _ _ (record w₁ { db = marked.0 }) inv₂ sent₂
                    (All-imp (Matches w.db) (Matches marked.0)
                      (λ k m.
                        mark_published-Matches k (calls.mark event.id) event.id env.token
                          (env.marked_at event.id) w₁.db
                          (subst (λ db. Matches db k) (sym (publish-db b (message_of event) w)) m))
                      events known.1))
          ]
    ]

pub claim_outbox-Matches :
    (call : Reply) (engine : Engine) (now : Time) (limit : ℕ) (token : String) (until : Time)
    (db : Db) (events : List OutboxEvent)
    → Inv db
    → (claim_outbox call engine now limit token until db).1 ≡ ok events
    → All (Matches (claim_outbox call engine now limit token until db).0) events
unfolding claim_outbox
claim_outbox-Matches answered engine now limit token until db events inv h =
    let chosen = is_candidate (outbox_candidates engine now limit db.events) in
    let row = claim_event_row token until in
    let db' = record db { events = update_where chosen row db.events } in
    subst (All (Matches db')) (cc) (
      All-map (Matches db') (λ e. event_of (row e)) (select_where chosen db.events)
        (All-select_into
          (λ a. All (λ b. same_event b a ≡ true → b.aggregate_id ≡ a.aggregate_id) db.events)
          (λ a. Matches db' (event_of (row a))) chosen
          (λ a _ m.
            All-update_where (λ b. event_has_id a.id b ≡ true → b.aggregate_id ≡ a.aggregate_id)
              chosen row (λ b _ q. q) db.events m)
          db.events
          (DistinctBy-agree same_event (λ e. e.aggregate_id) (λ r s. =ₛ_sym r.id s.id) db.events
            inv.unique_events)))
claim_outbox-Matches refused engine now limit token until db events inv h =
    absurd (ground (arith, h))
claim_outbox-Matches lost engine now limit token until db events inv h = absurd (ground (arith, h))

claim_outbox-Sent :
    (call : Reply) (engine : Engine) (now : Time) (limit : ℕ) (token : String) (until : Time)
    (w : World)
    → Sent w
    → Sent (record w { db = (claim_outbox call engine now limit token until w.db).0 })
unfolding claim_outbox
claim_outbox-Sent call engine now limit token until w h =
    reply_keeps (λ db. Sent (record w { db = db })) call "claim outbox" w.db _ _ h
      (All-update_where (λ e. (is_unpublished e || any_where (announces e) w.queue) ≡ true)
        (is_candidate (outbox_candidates engine now limit w.db.events))
        (claim_event_row token until) (λ e _ q. q) w.db.events h)

-- A pass of the publisher keeps the invariant of the tables, and that each event that is marked as
-- published has its message in the broker, whatever the server and the broker make of its calls.
pub run_once_sends :
    (calls : Calls) (config : Config) (env : Readings) (w : World)
    → Inv w.db
    → Sent w
    → Inv (run_once (repository calls) config env w).0.db
      × Sent (run_once (repository calls) config env w).0
unfolding run_once
run_once_sends calls config env w inv sent =
    let until = env.now +ℤ config.claim_ttl in
    let claimed =
      claim_outbox calls.claim calls.engine env.now config.batch_size env.token until w.db in
    let inv' =
      claim_outbox-Inv calls.claim calls.engine env.now config.batch_size env.token until w.db
        inv in
    let sent' =
      claim_outbox-Sent calls.claim calls.engine env.now config.batch_size env.token until w sent in
    elim (Fallible-cases claimed.1) [
      | inr (e, failed) ↦ rw (failed, run_once) (inv', sent')
      | inl (events, answer) ↦
          rw (answer, run_once)
            (publish_all_keeps calls env events 0 [] (record w { db = claimed.0 }) inv' sent'
              (claim_outbox-Matches calls.claim calls.engine env.now config.batch_size env.token
                until w.db events inv answer))
    ]
