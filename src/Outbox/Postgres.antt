-- ===== src/Outbox/Postgres.antt =====
-- internal/outbox/service.go over the store of internal/store/postgres and a broker.
use rc_pangjiahui.Prelude.{
  String, Bool, true, ◌&&◌, ◌||◌, ◌≡◌, ◌=ₛ◌, Option, none, some, List, [], ◌∷◌, ◌++◌, All,
  any_where, if◌then◌else◌,
}
use rc_pangjiahui.Store.Tables.{EventRow, Db, Error, Reply}
use rc_pangjiahui.Store.Outbox.{Engine, is_unpublished, claim_outbox, mark_published}
use rc_pangjiahui.Delivery.Service.{Message}
use rc_pangjiahui.Outbox.{Repository}

-- The tables, and the messages that the broker has taken.
pub record World : Type 0 where
  pub db : Db
  pub queue : List Message

-- What the broker does with a message: whether it takes it, and what the publisher then hears.
-- Publish succeeds only on the confirmation of a message that the broker took.
pub data Broker : Type 0 where
  confirmed : Broker
  unconfirmed : (taken : Bool) (e : Error) → Broker

pub record Calls : Type 0 where
  pub engine : Engine
  pub claim : Reply
  pub broker : Message → Broker
  pub mark : String → Reply

unfoldable pub publish : Broker → Message → World → World × Option Error
publish Broker.confirmed m w = (record w { queue = w.queue ++ m ∷ [] }, none)
publish (Broker.unconfirmed taken e) m w =
    (if taken then record w { queue = w.queue ++ m ∷ [] } else w, some e)

abbrev pub repository : Calls → Repository World
repository calls = record {
  claim_outbox = λ now limit token until w.
      let (db, events) = claim_outbox calls.claim calls.engine now limit token until w.db in
      (record w { db = db }, events);
  mark_published = λ id token at w.
      let (db, applied) = mark_published (calls.mark id) id token at w.db in
      (record w { db = db }, applied);
  publish = λ m w. publish (calls.broker m) m w;
}

-- The message that announces an event.
abbrev pub announces : EventRow → Message → Bool
announces e m = m.event_id =ₛ e.id && m.notification_id =ₛ e.aggregate_id

-- Each event that is marked as published has its message in the broker.
abbrev pub Sent : World → Type 0
Sent w = All (λ e. (is_unpublished e || any_where (announces e) w.queue) ≡ true) w.db.events
