-- ===== src/Store/Ownership.antt =====
-- A lease and a claim token of internal/store/postgres are held by one process and used once.
use rc_pangjiahui.Prelude.{
  String, true, false, not, ◌&&◌, ◌≡◌, ◌≢◌, subst, sym, inl, inr, none, some, arith, eq_iff,
  find_where, any_where, Bool-cases,
}
use rc_pangjiahui.Prelude.RowLaws.{
  any_where-cleared, update_where-none, count_where-none, find_where-absent, All-update_into,
  All→any_where, find_where-passes,
}
use rc_pangjiahui.Prelude.DistinctRows.{find_where-unique_key}
use rc_pangjiahui.Notification.Model.{Time, AttemptResult}
use rc_pangjiahui.Store.Tables.{TaskRow, Db, ok, Reply, answered, refused, lost, has_id}
use rc_pangjiahui.Store.Delivery.{
  is_pending, claim_row, claim_of, claim_delivery, is_leased, result_row, result_checks,
  apply_delivery_result,
}
use rc_pangjiahui.Store.Outbox.{is_held, published_row, mark_published}
use rc_pangjiahui.Store.Invariant.{Inv, same_task}

-- A result under a lease that no row holds changes nothing, and says so.
pub apply-unheld :
    (id lease : String) (result : AttemptResult) (db : Db)
    → any_where (is_leased id lease) db.tasks ≡ false
    → apply_delivery_result answered id lease result db ≡ (db, ok false)
unfolding apply_delivery_result
apply-unheld id lease result db h = ground (
  arith,
  h,
  update_where-none (is_leased id lease) (result_row result) db.tasks h,
  count_where-none (is_leased id lease) db.tasks h,
)

apply-spends :
    (call : Reply) (id lease : String) (result : AttemptResult) (db : Db)
    → (apply_delivery_result call id lease result db).1 ≡ ok true
    → any_where (is_leased id lease) (apply_delivery_result call id lease result db).0.tasks ≡ false
unfolding apply_delivery_result
apply-spends answered id lease result db h =
    elim (Bool-cases (any_where (is_leased id lease) db.tasks && not (result_checks result))) [
      | inl bad ↦ absurd (ground (arith, h, bad))
      | inr fine ↦ rw fine (
          any_where-cleared (is_leased id lease) (is_leased id lease) (result_row result)
            (λ r e. ground (arith, e)) (λ r e f. ground (arith, e, f)) db.tasks)
    ]
apply-spends refused id lease result db h = absurd (ground (arith, h))
apply-spends lost id lease result db h = absurd (ground (arith, h))

-- A lease is spent by the result that is applied under it: a later result under the same lease, of
-- the same or of another outcome, changes nothing and is answered with false.
pub apply_once :
    (call : Reply) (id lease : String) (result later : AttemptResult) (db : Db)
    → (apply_delivery_result call id lease result db).1 ≡ ok true
    → apply_delivery_result answered id lease later
        (apply_delivery_result call id lease result db).0
      ≡ ((apply_delivery_result call id lease result db).0, ok false)
apply_once call id lease result later db h =
    apply-unheld id lease later (apply_delivery_result call id lease result db).0
      (apply-spends call id lease result db h)

-- After a claim under one lease no row is leased under another.
claim-other_lease :
    (clock : Time) (id lease other : String) (until : Time) (db : Db) (r : TaskRow)
    → Inv db
    → find_where (is_pending id) db.tasks ≡ some r
    → lease ≢ other
    → any_where (is_leased id other) (claim_delivery answered clock id lease until db).0.tasks
      ≡ false
unfolding claim_delivery
claim-other_lease clock id lease other until db r inv found apart =
    All→any_where (is_leased id other) _ (
      All-update_into (λ x. has_id id x ≡ true → x ≡ r) (λ x. is_leased id other x ≡ false)
        (is_pending id) (claim_row clock lease until)
        (λ x _ _. ground (arith, eq_iff lease other, apart))
        (λ x not_pending only. elim (Bool-cases (has_id id x)) [
          | inl e ↦
              let same =
                subst (λ y. is_pending id y ≡ true) (sym (only e))
                  (find_where-passes (is_pending id) db.tasks found) in
              absurd (ground (arith, not_pending, same))
          | inr e ↦ ground (arith, e)
        ])
        db.tasks
        (find_where-unique_key same_task (is_pending id) (has_id id) (λ x e. ground (arith, e))
          (λ x y e f. ground (arith, eq_iff x.id id, eq_iff y.id id, eq_iff x.id y.id)) db.tasks
          inv.unique_ids found))

-- A claim that no task waits for changes nothing and acquires nothing.
claim-none :
    (clock : Time) (id lease : String) (until : Time) (db : Db)
    → any_where (is_pending id) db.tasks ≡ false
    → claim_delivery answered clock id lease until db ≡ (db, ok (claim_of clock lease until none))
unfolding claim_delivery
claim-none clock id lease until db h = ground (
  arith,
  h,
  update_where-none (is_pending id) (claim_row clock lease until) db.tasks h,
  find_where-absent (is_pending id) db.tasks h,
)

claim-spends :
    (clock : Time) (id lease : String) (until : Time) (db : Db)
    → any_where (is_pending id) (claim_delivery answered clock id lease until db).0.tasks ≡ false
unfolding claim_delivery
claim-spends clock id lease until db =
    any_where-cleared (is_pending id) (is_pending id) (claim_row clock lease until)
      (λ r e. ground (arith, e)) (λ r e f. ground (arith, e, f)) db.tasks

-- On tables that satisfy the invariant, once a pending task is claimed under one lease, a second claim
-- acquires nothing and changes nothing, and a result under any other lease is not applied.
pub claim_exclusive :
    (clock later : Time) (id lease other : String) (until until' : Time) (result : AttemptResult)
    (db : Db) (r : TaskRow)
    → Inv db
    → find_where (is_pending id) db.tasks ≡ some r
    → lease ≢ other
    → (claim_delivery answered later id other until'
          (claim_delivery answered clock id lease until db).0
        ≡ (
          (claim_delivery answered clock id lease until db).0,
          ok (claim_of later other until' none),
        ))
      × (apply_delivery_result answered id other result
            (claim_delivery answered clock id lease until db).0
          ≡ ((claim_delivery answered clock id lease until db).0, ok false))
claim_exclusive clock later id lease other until until' result db r inv found apart = (
  claim-none later id other until' (claim_delivery answered clock id lease until db).0
      (claim-spends clock id lease until db),
  apply-unheld id other result (claim_delivery answered clock id lease until db).0
      (claim-other_lease clock id lease other until db r inv found apart),
)

mark-spends :
    (call : Reply) (id token : String) (at : Time) (db : Db)
    → (mark_published call id token at db).1 ≡ ok true
    → any_where (is_held id token) (mark_published call id token at db).0.events ≡ false
unfolding mark_published
mark-spends answered id token at db h =
    any_where-cleared (is_held id token) (is_held id token) (published_row at)
      (λ r e. ground (arith, e)) (λ r e f. ground (arith, e, f)) db.events
mark-spends refused id token at db h = absurd (ground (arith, h))
mark-spends lost id token at db h = absurd (ground (arith, h))

mark-unheld :
    (id token : String) (at : Time) (db : Db)
    → any_where (is_held id token) db.events ≡ false
    → mark_published answered id token at db ≡ (db, ok false)
unfolding mark_published
mark-unheld id token at db h = ground (
  arith,
  h,
  update_where-none (is_held id token) (published_row at) db.events h,
  count_where-none (is_held id token) db.events h,
)

-- An event is marked as published once under a claim: a second mark changes nothing and is answered
-- with false.
pub mark_once :
    (call : Reply) (id token : String) (at later : Time) (db : Db)
    → (mark_published call id token at db).1 ≡ ok true
    → mark_published answered id token later (mark_published call id token at db).0
      ≡ ((mark_published call id token at db).0, ok false)
mark_once call id token at later db h =
    mark-unheld id token later (mark_published call id token at db).0
      (mark-spends call id token at db h)
