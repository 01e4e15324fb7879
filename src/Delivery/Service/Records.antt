-- ===== src/Delivery/Service/Records.antt =====
-- A handling of a pending task from the claim to the recorded result.
use mathlib.Core.Bool.{false≢true}
use rc_pangjiahui.Prelude.{
  String, true, false, not, ◌&&◌, ◌≡◌, sym, ◌∙◌, ap, ◌+ℤ◌, some, arith, eq_iff, All, All-imp,
  any_where, find_where, update_where, Bool-cases, inl, inr,
}
use rc_pangjiahui.Prelude.RowLaws.{
  All-find, update_where-twice, count_where-twice, find_where-passes,
}
use rc_pangjiahui.Prelude.DistinctRows.{find_where-unique_key, count_where_unique}
use rc_pangjiahui.Notification.Model.{Time, AttemptResult}
use rc_pangjiahui.Store.Tables.{TaskRow, Db, ok, answered, has_id}
use rc_pangjiahui.Store.Delivery.{
  is_pending, claim_row, snapshot_of, claimed_task, claim_delivery, is_leased, result_row,
  result_checks, apply_delivery_result,
}
use rc_pangjiahui.Store.Invariant.{Inv, same_task}
use rc_pangjiahui.Delivery.Service.{Message, ack, Surroundings, outcome_label, attempt_of, handle}
use rc_pangjiahui.Delivery.Service.Postgres.{Calls, repository}

pending_key :
    (id : String) (r s : TaskRow) → has_id id r ≡ true → has_id id s ≡ true → same_task r s ≡ true
pending_key id r s hr hs = ground (arith, eq_iff r.id id, eq_iff s.id id, eq_iff r.id s.id)

-- The only row with the identifier is the pending one, so nothing else is leased under it.
only_pending :
    (id lease : String) (db : Db) (r : TaskRow)
    → Inv db
    → find_where (is_pending id) db.tasks ≡ some r
    → All (λ x. is_pending id x ≡ false → is_leased id lease x ≡ false) db.tasks
only_pending id lease db r inv found =
    All-imp (λ x. has_id id x ≡ true → x ≡ r)
      (λ x. is_pending id x ≡ false → is_leased id lease x ≡ false)
      (λ x unique apart. elim (Bool-cases (has_id id x)) [
        | inl h ↦ absurd (
            false≢true (
              sym apart
              ∙ ap (is_pending id) (unique h)
              ∙ find_where-passes (is_pending id) db.tasks found))
        | inr h ↦ ground (arith, h)
      ])
      db.tasks
      (find_where-unique_key same_task (is_pending id) (has_id id) (λ x h. ground (arith, h))
        (pending_key id) db.tasks inv.unique_ids found)

-- The server answers both calls.
abbrev pub all_answered : Time → Calls
all_answered clock = record { claim = answered; clock = clock; apply = answered }

claim_found :
    (clock : Time) (id lease : String) (until : Time) (db : Db) (r : TaskRow)
    → find_where (is_pending id) db.tasks ≡ some r
    → (claim_delivery answered clock id lease until db).1
      ≡ ok (record {
        task = claimed_task lease until (claim_row clock lease until r);
        acquired = true;
      })
unfolding claim_delivery
claim_found clock id lease until db r found = ground (arith, found)

-- The two statements of a delivery that the server answers, in one.
claim_then_apply :
    (clock : Time) (id lease : String) (until : Time) (result : AttemptResult) (db : Db)
    (r : TaskRow)
    → Inv db
    → find_where (is_pending id) db.tasks ≡ some r
    → result_checks result ≡ true
    → apply_delivery_result answered id lease result
        (claim_delivery answered clock id lease until db).0
      ≡ (
        record db {
          tasks =
              update_where
                (is_pending id)
                (λ x. result_row result (claim_row clock lease until x))
                db.tasks;
        },
        ok true,
      )
unfolding claim_delivery apply_delivery_result
claim_then_apply clock id lease until result db r inv found fits =
    let moved = λ (x : TaskRow) (h : is_pending id x ≡ true). leased_now x h in
    let apart = only_pending id lease db r inv found in
    let one =
      count_where-twice (is_pending id) (is_leased id lease) (claim_row clock lease until) moved
        db.tasks apart
      ∙ count_where_unique same_task (is_pending id)
          (λ x y hx hy. pending_key id x y (ground (arith, hx)) (ground (arith, hy))) db.tasks
          inv.unique_ids (All-find (is_pending id) db.tasks found) in
    let both =
      update_where-twice (is_pending id) (is_leased id lease) (claim_row clock lease until) moved
        (result_row result) db.tasks apart in
    simp (valid, one, both)
  where
    valid :
        (any_where (is_leased id lease) (claim_delivery answered clock id lease until db).0.tasks
          && not (result_checks result))
        ≡ false
    valid = ground (arith, fits)

    leased_now :
        (x : TaskRow)
        → is_pending id x ≡ true
        → is_leased id lease (claim_row clock lease until x) ≡ true
    leased_now x h = ground (arith, h, eq_iff lease lease)

-- On tables that satisfy the invariant, a message whose task is pending, whose calls the server and
-- the limiter answer, and whose result fits its columns, is handled in full: the supplier is called
-- once with the stored request, the message is acknowledged, and the task's row, and no other, goes
-- through the claim to the recorded result.
pub handle_records :
    (clock : Time) (env : Surroundings) (message : Message) (db : Db) (r : TaskRow)
    → let until = env.now +ℤ env.lease_ttl in
      let claim = claim_row clock env.lease until in
      let attempt =
        attempt_of env (claimed_task env.lease until (claim r)) (env.send (snapshot_of r)) in
      Inv db
      → find_where (is_pending message.notification_id) db.tasks ≡ some r
      → env.acquires r.request.destination_id r.request.concurrency_limit ≡ true
      → result_checks attempt ≡ true
      → handle (repository (all_answered clock)) env message db ≡ (
        record db {
          tasks =
              update_where
                (is_pending message.notification_id)
                (λ x. result_row attempt (claim x))
                db.tasks;
        },
        record {
          disposition = ack;
          sent = some (snapshot_of r);
          observed = some (outcome_label attempt.outcome);
        },
      )
unfolding handle
handle_records clock env message db r inv found free fits =
    let until = env.now +ℤ env.lease_ttl in
    let id = message.notification_id in
    let attempt =
      attempt_of env (claimed_task env.lease until (claim_row clock env.lease until r))
        (env.send (snapshot_of r)) in
    let done = claim_then_apply clock id env.lease until attempt db r inv found fits in
    rw (claim_found clock id env.lease until db r found, handle) (simp (free, done))
