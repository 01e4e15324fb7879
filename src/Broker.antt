-- ===== src/Broker.antt =====
-- What Consume of internal/messaging/rabbitmq/consumer.go reads of a delivery, and how the loop of the
-- worker in internal/app/bootstrap.go settles it. The client library amqp091-go and JSON are
-- parameters.
pub mod Client
pub mod Opening
pub mod Consumer
use rc_pangjiahui.Prelude.{
  String, Bool, true, false, not, ◌||◌, ◌≡◌, ◌↔◌, ◌=ₛ◌, Option, none, some, arith, if◌then◌else◌,
}
use rc_pangjiahui.Store.Tables.{Error, other}
use rc_pangjiahui.Delivery.Service.{Message, Disposition, ack, requeue, reject}

-- What becomes of a delivery of the broker.
pub data Settlement : Type 0 where
  acked requeued rejected : Settlement

-- The message of a delivery, if it is well formed.
unfoldable pub accept : (String → Option Message) → String → Option Message
accept unmarshal body = elim (unmarshal body) [
  | none ↦ none
  | some m ↦ if m.event_id =ₛ "" || m.notification_id =ₛ "" then none else some m
]

abbrev pub settle : Disposition → Settlement
settle ack = Settlement.acked
settle requeue = Settlement.requeued
settle reject = Settlement.rejected
