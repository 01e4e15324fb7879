-- ===== src/Delivery/Service/Effects.antt =====
-- What one handling of a message does to the tables, whatever the server, the limiter and the
-- supplier answer.
use rc_pangjiahui.Prelude.{
  String, true, false, not, ◌&&◌, ◌≡◌, ◌≢◌, refl, inl, inr, ◌+ℤ◌, none, some, arith, any_where,
  find_where, Bool-cases, Option-cases,
}
use rc_pangjiahui.Prelude.RowLaws.{
  any_where-cleared, any_where-still_none, update_where-none, All-find,
}
use rc_pangjiahui.Notification.Model.{Time, DeliverySnapshot, AttemptResult, Claim}
use rc_pangjiahui.Store.Tables.{TaskRow, Db, ok, Reply, answered, refused, lost}
use rc_pangjiahui.Store.Delivery.{
  is_pending, claim_row, snapshot_of, claimed_task, claim_delivery, is_leased, result_row,
  result_checks, apply_delivery_result,
}
use rc_pangjiahui.Store.Invariant.{Inv}
use rc_pangjiahui.Store.Invariant.Claims.{
  claim_delivery-Inv, apply_delivery_result-Inv, reply_keeps,
}
use rc_pangjiahui.Delivery.Service.{Message, ack, reject, Surroundings, Handled, attempt_of, handle}
use rc_pangjiahui.Delivery.Service.Attempt.{attempt_of-IsComplete}
use rc_pangjiahui.Delivery.Service.Cases.{deliver_cases, handle_cases}
use rc_pangjiahui.Delivery.Service.Postgres.{Calls, repository}

-- A claim that was acquired is of the row that was pending, and the server answered.
pub claim-acquired :
    (call : Reply) (clock : Time) (id lease : String) (until : Time) (db : Db) (claim : Claim)
    → (claim_delivery call clock id lease until db).1 ≡ ok claim
    → claim.acquired ≡ true
    → (r : TaskRow) × (find_where (is_pending id) db.tasks ≡ some r)
      × (claim.task ≡ claimed_task lease until (claim_row clock lease until r))
      × (call ≡ answered)
unfolding claim_delivery
claim-acquired answered clock id lease until db claim e got =
    elim (Option-cases (find_where (is_pending id) db.tasks)) [
      | inl missing ↦ absurd (ground (arith, e, got, missing))
      | inr (r, found) ↦ (r, found, ground (arith, e, found), refl)
    ]
claim-acquired refused clock id lease until db claim e got = cc
claim-acquired lost clock id lease until db claim e got = cc

-- After a claim that the server answered nothing is pending under the identifier.
pub claim-none_pending :
    (clock : Time) (id lease : String) (until : Time) (db : Db)
    → any_where (is_pending id) (claim_delivery answered clock id lease until db).0.tasks ≡ false
unfolding claim_delivery
claim-none_pending clock id lease until db =
    any_where-cleared (is_pending id) (is_pending id) (claim_row clock lease until)
      (λ r e. ground (arith, e)) (λ r e f. ground (arith, e, f)) db.tasks

pub claim-ok :
    (call : Reply) (clock : Time) (id lease : String) (until : Time) (db : Db) (claim : Claim)
    → (claim_delivery call clock id lease until db).1 ≡ ok claim
    → call ≡ answered
unfolding claim_delivery
claim-ok answered clock id lease until db claim e = refl
claim-ok refused clock id lease until db claim e = cc
claim-ok lost clock id lease until db claim e = cc

-- A claim with nothing to claim changes nothing.
claim-nothing :
    (call : Reply) (clock : Time) (id lease : String) (until : Time) (db : Db)
    → any_where (is_pending id) db.tasks ≡ false
    → (claim_delivery call clock id lease until db).0 ≡ db
unfolding claim_delivery
claim-nothing call clock id lease until db h =
    reply_keeps (λ d. d ≡ db) call "claim delivery" db _ _ refl
      (rw (update_where-none (is_pending id) (claim_row clock lease until) db.tasks h))

-- Neither a claim nor a result makes a task pending.
claim-still_none :
    (call : Reply) (clock : Time) (id other lease : String) (until : Time) (db : Db)
    → any_where (is_pending other) db.tasks ≡ false
    → any_where (is_pending other) (claim_delivery call clock id lease until db).0.tasks ≡ false
unfolding claim_delivery
claim-still_none call clock id other lease until db h =
    reply_keeps (λ d. any_where (is_pending other) d.tasks ≡ false) call "claim delivery" db _ _ h
      (any_where-still_none (is_pending other) (is_pending id) (claim_row clock lease until)
        (λ r e. ground arith) db.tasks h)

apply-none_pending :
    (call : Reply) (id other lease : String) (result : AttemptResult) (db : Db)
    → any_where (is_pending other) db.tasks ≡ false
    → any_where (is_pending other) (apply_delivery_result call id lease result db).0.tasks ≡ false
unfolding apply_delivery_result
apply-none_pending call id other lease result db h =
    let P = λ (d : Db). any_where (is_pending other) d.tasks ≡ false in
    elim (Bool-cases (any_where (is_leased id lease) db.tasks && not (result_checks result))) [
      | inl bad ↦ rw (apply_delivery_result, bad) h
      | inr good ↦
          rw (apply_delivery_result, good)
            (reply_keeps P call "apply delivery result" db _ _ h (
              any_where-still_none (is_pending other) (is_leased id lease) (result_row result)
                (λ r e. ground arith) db.tasks h))
    ]

module _ (calls : Calls) (env : Surroundings) (message : Message) where
  -- A handling keeps the invariant of the tables, whatever the server, the limiter and the supplier
  -- answer.
  pub handle-Inv : (db : Db) → Inv db → Inv (handle (repository calls) env message db).0
  handle-Inv db inv =
      let id = message.notification_id in
      let until = env.now +ℤ env.lease_ttl in
      let claimed = claim_delivery-Inv calls.claim calls.clock id env.lease until db inv in
      let db₁ = (claim_delivery calls.claim calls.clock id env.lease until db).0 in
      handle_cases calls env message (λ t. Inv t.0) db (λ e _. claimed) (λ c _ _. claimed)
        λ c _ _.
          let attempt = attempt_of env c.task (env.send c.task.snapshot) in
          let applied =
            apply_delivery_result-Inv calls.apply id env.lease attempt db₁
              (attempt_of-IsComplete env c.task (env.send c.task.snapshot)) claimed in
          deliver_cases calls env message (λ t. Inv t.0) c.task db₁ claimed (λ e _. applied)
            (λ done _. applied)

  -- A message is acknowledged only when no task waits for a delivery under its identifier.
  pub handle_ack :
      (db : Db)
      → (handle (repository calls) env message db).1.disposition ≡ ack
      → any_where
          (is_pending message.notification_id)
          (handle (repository calls) env message db).0.tasks
        ≡ false
  handle_ack db =
      let id = message.notification_id in
      let until = env.now +ℤ env.lease_ttl in
      let P =
        λ (t : Db × Handled). t.1.disposition ≡ ack → any_where (is_pending id) t.0.tasks ≡ false in
      let none_pending =
        λ (c : Claim) (e : (claim_delivery calls.claim calls.clock id env.lease until db).1 ≡ ok c).
          none_pending_of c e in
      handle_cases calls env message P db (λ e _ q. cc) (λ c e _ _. none_pending c e)
        λ c e _.
          deliver_cases calls env message P c.task
            (claim_delivery calls.claim calls.clock id env.lease until db).0 (λ q. cc) (λ x _ q. cc)
            λ done _ _.
              apply-none_pending calls.apply id id env.lease
                (attempt_of env c.task (env.send c.task.snapshot))
                (claim_delivery calls.claim calls.clock id env.lease until db).0 (none_pending c e)
    where
      none_pending_of :
          (c : Claim)
          → (claim_delivery calls.claim calls.clock message.notification_id env.lease
              (env.now +ℤ env.lease_ttl)
              db).1
            ≡ ok c
          → any_where
              (is_pending message.notification_id)
              (claim_delivery calls.claim calls.clock message.notification_id env.lease
                (env.now +ℤ env.lease_ttl)
                db).0.tasks
            ≡ false
      none_pending_of c e =
          rw
            (claim-ok calls.claim calls.clock message.notification_id env.lease
              (env.now +ℤ env.lease_ttl) db c e)
            (claim-none_pending calls.clock message.notification_id env.lease
              (env.now +ℤ env.lease_ttl) db)

  -- A handling makes no task pending, and does not reject.
  pub handle-none_pending :
      (other : String) (db : Db)
      → any_where (is_pending other) db.tasks ≡ false
      → any_where (is_pending other) (handle (repository calls) env message db).0.tasks ≡ false
  handle-none_pending other db h =
      let id = message.notification_id in
      let until = env.now +ℤ env.lease_ttl in
      let claimed = claim_delivery calls.claim calls.clock id env.lease until db in
      let P = λ (t : Db × Handled). any_where (is_pending other) t.0.tasks ≡ false in
      let still = claim-still_none calls.claim calls.clock id other env.lease until db h in
      handle_cases calls env message P db (λ e _. still) (λ c _ _. still)
        λ c _ _.
          let attempt = attempt_of env c.task (env.send c.task.snapshot) in
          let kept = apply-none_pending calls.apply id other env.lease attempt claimed.0 still in
          deliver_cases calls env message P c.task claimed.0 still (λ x _. kept) (λ done _. kept)

  pub handle_settles : (db : Db) → (handle (repository calls) env message db).1.disposition ≢ reject
  handle_settles db =
      let id = message.notification_id in
      let until = env.now +ℤ env.lease_ttl in
      let claimed = claim_delivery calls.claim calls.clock id env.lease until db in
      let P = λ (t : Db × Handled). t.1.disposition ≢ reject in
      handle_cases calls env message P db (λ e _ q. cc) (λ c _ _ q. cc)
        λ c _ _.
          deliver_cases calls env message P c.task claimed.0 (λ q. cc) (λ x _ q. cc)
            (λ done _ q. cc)

  -- The supplier is called only with the snapshot of the row that was pending under the message's
  -- identifier, and only after the claim of it was answered.
  pub handle_sent :
      (db : Db) (snapshot : DeliverySnapshot)
      → (handle (repository calls) env message db).1.sent ≡ some snapshot
      → (calls.claim ≡ answered)
        × ((r : TaskRow) × (find_where (is_pending message.notification_id) db.tasks ≡ some r)
            × (snapshot ≡ snapshot_of r))
  handle_sent db snapshot =
      let id = message.notification_id in
      let until = env.now +ℤ env.lease_ttl in
      let Goal =
        (calls.claim ≡ answered)
        × ((r : TaskRow) × (find_where (is_pending id) db.tasks ≡ some r)
            × (snapshot ≡ snapshot_of r)) in
      let P = λ (t : Db × Handled). t.1.sent ≡ some snapshot → Goal in
      handle_cases calls env message P db (λ e _ q. cc) (λ c _ _ q. cc)
        λ c e got.
          let (r, found, task, up) =
            claim-acquired calls.claim calls.clock id env.lease until db c e got in
          deliver_cases calls env message P c.task
            (claim_delivery calls.claim calls.clock id env.lease until db).0 (λ q. cc)
            (λ x _ q. (up, (r, found, ground (arith, q, task))))
            (λ done _ q. (up, (r, found, ground (arith, q, task))))

  -- A message for which no task is pending, such as a duplicate, calls no supplier and leaves the
  -- tables as they are.
  pub handle_duplicate :
      (db : Db)
      → any_where (is_pending message.notification_id) db.tasks ≡ false
      → ((handle (repository calls) env message db).0 ≡ db)
        × ((handle (repository calls) env message db).1.sent ≡ none)
  handle_duplicate db h =
      let id = message.notification_id in
      let until = env.now +ℤ env.lease_ttl in
      let P = λ (t : Db × Handled). (t.0 ≡ db) × (t.1.sent ≡ none) in
      let same = claim-nothing calls.claim calls.clock id env.lease until db h in
      handle_cases calls env message P db (λ e _. (same, refl)) (λ c _ _. (same, refl))
        λ c e got.
          let (r, found, task, up) =
            claim-acquired calls.claim calls.clock id env.lease until db c e got in
          absurd (ground (arith, All-find (is_pending id) db.tasks found, h))
