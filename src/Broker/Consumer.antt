-- ===== src/Broker/Consumer.antt =====
-- The goroutine of Consume in internal/messaging/rabbitmq/consumer.go and the loop of the worker in
-- internal/app/bootstrap.go, over the store: all deliveries of the broker, one after the other.
use rc_pangjiahui.Prelude.{
  String, Bool, true, false, ◌≡◌, ◌↔◌, refl, Option, none, some, List, [], ◌∷◌, inl, inr, arith,
  All, any_where, Bool-cases, Option-cases,
}
use rc_pangjiahui.Store.Tables.{Db}
use rc_pangjiahui.Store.Delivery.{is_pending}
use rc_pangjiahui.Store.Invariant.{Inv}
use rc_pangjiahui.Delivery.Service.{
  Message, Disposition, ack, requeue, reject, Surroundings, handle,
}
use rc_pangjiahui.Delivery.Service.Postgres.{Calls, repository}
use rc_pangjiahui.Delivery.Service.Effects.{
  handle-Inv, handle_ack, handle-none_pending, handle_settles,
}
use rc_pangjiahui.Broker.{Settlement, acked, rejected, accept, settle}

-- A delivery: its body, whether the context ends before the worker takes it, and what its handling
-- meets.
pub record Round : Type 0 where
  pub body : String
  pub done : Bool
  pub calls : Calls
  pub env : Surroundings

module _ (unmarshal : String → Option Message) where
  -- The tables after the deliveries, and what became of each that was settled.
  unfoldable pub consume_all : List Round → Db → Db × List (String × Settlement)
  consume_all [] db = (db, [])
  consume_all (round ∷ rounds) db = elim (accept unmarshal round.body) [
    | none ↦ let (db', log) = consume_all rounds db in (db', (round.body, rejected) ∷ log)
    | some m ↦ elim round.done [
      | true ↦ (db, [])
      | false ↦
          let (db', handled) = handle (repository round.calls) round.env m db in
          let (db'', log) = consume_all rounds db' in
          (db'', (round.body, settle handled.disposition) ∷ log)
    ]
  ]

  consume_all-none_pending :
      (id : String) (rounds : List Round) (db : Db)
      → any_where (is_pending id) db.tasks ≡ false
      → any_where (is_pending id) (consume_all rounds db).0.tasks ≡ false
  unfolding consume_all
  consume_all-none_pending id [] db h = h
  consume_all-none_pending id (round ∷ rounds) db h =
      elim (Option-cases (accept unmarshal round.body)) [
        | inl bad ↦ rw (bad, consume_all) (consume_all-none_pending id rounds db h)
        | inr (m, good) ↦ elim (Bool-cases round.done) [
          | inl over ↦ rw (good, consume_all, over) h
          | inr on ↦
              rw (good, consume_all, on)
                (consume_all-none_pending id rounds
                  (handle (repository round.calls) round.env m db).0
                  (handle-none_pending round.calls round.env m id db h))
        ]
      ]

  -- A delivery is rejected exactly if its body is no message; and one that is acknowledged is a
  -- message for which no task is pending.
  abbrev pub IsSettled : Db → String × Settlement → Type 0
  IsSettled db (body, settlement) =
      ((settlement ≡ rejected) ↔ (accept unmarshal body ≡ none))
      × (settlement ≡ acked
          → (m : Message) × (accept unmarshal body ≡ some m)
            × (any_where (is_pending m.notification_id) db.tasks ≡ false))

  rejected_only : (d : Disposition) → settle d ≡ rejected → d ≡ reject
  rejected_only ack h = absurd (ground (arith, h))
  rejected_only requeue h = absurd (ground (arith, h))
  rejected_only reject h = refl

  acked_only : (d : Disposition) → settle d ≡ acked → d ≡ ack
  acked_only ack h = refl
  acked_only requeue h = absurd (ground (arith, h))
  acked_only reject h = absurd (ground (arith, h))

  handled-IsSettled :
      (round : Round) (m : Message) (rounds : List Round) (db : Db)
      → accept unmarshal round.body ≡ some m
      → let (db', handled) = handle (repository round.calls) round.env m db in
        IsSettled (consume_all rounds db').0 (round.body, settle handled.disposition)
  handled-IsSettled round m rounds db good =
      let after = handle (repository round.calls) round.env m db in
      (
        (
          λ q.
              absurd
                (handle_settles round.calls round.env m db (rejected_only after.1.disposition q)),
          λ q. absurd (ground (arith, q, good)),
        ),
        λ q. (
          m,
          good,
          consume_all-none_pending m.notification_id rounds after.0
              (handle_ack round.calls round.env m db (acked_only after.1.disposition q)),
        ),
      )

  -- However many deliveries the worker takes, whatever the server, the limiter and the suppliers
  -- answer: the invariant of the tables is kept; of the deliveries that are settled, exactly those
  -- whose body is no message are rejected; and when all is done, no task is pending under the
  -- identifier of a message that was acknowledged.
  pub consume_all_settles :
      (rounds : List Round) (db : Db)
      → Inv db
      → Inv (consume_all rounds db).0
        × All (IsSettled (consume_all rounds db).0) (consume_all rounds db).1
  unfolding consume_all
  consume_all_settles [] db inv = (inv, tt)
  consume_all_settles (round ∷ rounds) db inv = elim (Option-cases (accept unmarshal round.body)) [
    | inl bad ↦
        let (kept, settled) = consume_all_settles rounds db inv in
        rw (bad, consume_all)
          (kept, (((λ _. bad, λ _. refl), λ q. absurd (ground (arith, q))), settled))
    | inr (m, good) ↦ elim (Bool-cases round.done) [
      | inl over ↦ rw (good, consume_all, over) (inv, tt)
      | inr on ↦
          let (kept, settled) =
            consume_all_settles rounds (handle (repository round.calls) round.env m db).0
              (handle-Inv round.calls round.env m db inv) in
          rw (good, consume_all, on) (kept, (handled-IsSettled round m rounds db good, settled))
    ]
  ]
