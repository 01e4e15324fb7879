-- ===== src/Outbox.antt =====
-- internal/outbox/service.go: a pass of the publisher over the events that it claims.
pub mod Postgres
pub mod Laws
pub mod Loop
use rc_pangjiahui.Prelude.{
  ℕ, ◌+◌, String, Bool, ◌+ℤ◌, Option, none, some, List, [], ◌∷◌, ◌++◌, if◌then◌else◌,
}
use rc_pangjiahui.Notification.Model.{Time, Duration, OutboxEvent}
use rc_pangjiahui.Store.Tables.{Error, other, Fallible, ok, err}
use rc_pangjiahui.Delivery.Service.{Message}

-- The methods of Repository and Publisher over a state `S`.
pub record Repository (S : Type 0) : Type 0 where
  pub claim_outbox : Time → ℕ → String → Time → S → S × Fallible (List OutboxEvent)
  pub mark_published : String → String → Time → S → S × Fallible Bool
  pub publish : Message → S → S × Option Error

pub record Config : Type 0 where
  pub batch_size : ℕ
  pub claim_ttl : Duration

-- The clock's readings, at the start and after the publication of an event, and the token.
pub record Readings : Type 0 where
  pub now : Time
  pub token : String
  pub marked_at : String → Time

-- The count of published events, the error if there is one, and the observed outcomes.
pub record Pass : Type 0 where
  pub published : ℕ
  pub error : Option Error
  pub observed : List String

abbrev pub message_of : OutboxEvent → Message
message_of event = record { event_id = event.id; notification_id = event.aggregate_id }

module _ {S : Type 0} (repository : Repository S) where
  -- The loop over the claimed events, from the count and the observations so far.
  unfoldable pub publish_all : Readings → List OutboxEvent → ℕ → List String → S → S × Pass
  publish_all env [] published observed s =
      (s, record { published = published; error = none; observed = observed })
  publish_all env (event ∷ events) published observed s =
      let (s₁, failed) = repository.publish (message_of event) s in
      elim failed [
        | some e ↦ (
          s₁,
          record { published = published; error = some e; observed = observed ++ "failed" ∷ [] },
        )
        | none ↦
            let (s₂, marked) =
              repository.mark_published event.id env.token (env.marked_at event.id) s₁ in
            elim marked [
              | err e ↦ (
                s₂,
                record {
                  published = published;
                  error = some (other "mark published");
                  observed = observed ++ "failed" ∷ [];
                },
              )
              | ok applied ↦
                  publish_all env events (if applied then published + 1 else published)
                    (if applied then observed ++ "confirmed" ∷ [] else observed) s₂
            ]
      ]

  unfoldable pub run_once : Config → Readings → S → S × Pass
  unfolding publish_all
  run_once config env s =
      let (s', claimed) =
        repository.claim_outbox env.now config.batch_size env.token (env.now +ℤ config.claim_ttl)
          s in
      elim claimed [
        | err e ↦ (s', record { published = 0; error = some (other "claim outbox"); observed = [] })
        | ok events ↦ publish_all env events 0 [] s'
      ]
