-- ===== src/Delivery/Service/Cases.antt =====
-- The paths through Handle of internal/delivery/service.go over the store.
use rc_pangjiahui.Prelude.{
  Bool, true, false, ◌≡◌, inl, inr, ◌+ℤ◌, none, some, if◌then◌else◌, Bool-cases,
}
use rc_pangjiahui.Notification.Model.{Task, Claim}
use rc_pangjiahui.Store.Tables.{Db, Error, ok, err, Fallible-cases}
use rc_pangjiahui.Store.Delivery.{claim_delivery, apply_delivery_result}
use rc_pangjiahui.Delivery.Service.{
  Message, ack, requeue, Surroundings, Handled, unsent, outcome_label, attempt_of, deliver, handle,
}
use rc_pangjiahui.Delivery.Service.Postgres.{Calls, repository}

module _ {ℓ} (calls : Calls) (env : Surroundings) (message : Message)
    (P : Db × Handled → Type ℓ) where
  -- The paths of a delivery.
  pub deliver_cases :
      (task : Task) (db : Db)
      → let attempt = attempt_of env task (env.send task.snapshot) in
        let applied =
          apply_delivery_result calls.apply message.notification_id env.lease attempt db in
        P (db, unsent requeue)
        → ((e : Error)
            → applied.1 ≡ err e
            → P (
              applied.0,
              record { disposition = requeue; sent = some task.snapshot; observed = none },
            ))
        → ((done : Bool)
            → applied.1 ≡ ok done
            → P (
              applied.0,
              record {
                disposition = ack;
                sent = some task.snapshot;
                observed = if done then some (outcome_label attempt.outcome) else none;
              },
            ))
        → P (deliver (repository calls) env message task db)
  unfolding deliver
  deliver_cases task db busy failed applied =
      elim (Bool-cases
        (env.acquires task.snapshot.destination_id task.snapshot.concurrency_limit)) [
          | inr full ↦ simp full busy
          | inl free ↦
              elim (Fallible-cases
                (apply_delivery_result calls.apply message.notification_id env.lease
                  (attempt_of env task (env.send task.snapshot)) db).1) [
                    | inr (e, q) ↦ simp (free, q) (failed e q)
                    | inl (done, q) ↦ simp (free, q) (applied done q)
                  ]
        ]

  -- The paths of a handling.
  pub handle_cases :
      (db : Db)
      → let claimed =
          claim_delivery calls.claim calls.clock message.notification_id env.lease
            (env.now +ℤ env.lease_ttl)
            db in
        ((e : Error) → claimed.1 ≡ err e → P (claimed.0, unsent requeue))
        → ((claim : Claim)
            → claimed.1 ≡ ok claim
            → claim.acquired ≡ false
            → P (claimed.0, unsent ack))
        → ((claim : Claim)
            → claimed.1 ≡ ok claim
            → claim.acquired ≡ true
            → P (deliver (repository calls) env message claim.task claimed.0))
        → P (handle (repository calls) env message db)
  unfolding handle
  handle_cases db failed missed acquired =
      elim (Fallible-cases
        (claim_delivery calls.claim calls.clock message.notification_id env.lease
          (env.now +ℤ env.lease_ttl) db).1) [
            | inr (e, q) ↦ rw (q, handle) (failed e q)
            | inl (claim, q) ↦ elim (Bool-cases claim.acquired) [
              | inr no_claim ↦ rw (q, handle, no_claim) (missed claim q no_claim)
              | inl got ↦ rw (q, handle, got) (acquired claim q got)
            ]
          ]
