-- ===== src/Store/Transitions.antt =====
-- Which changes of a task the statements of internal/store/postgres make, against the transitions
-- of internal/notification/state.go.
use rc_pangjiahui.Prelude.{
  ℕ, ◌+◌, ◌≤◌, String, Bool, true, false, not, ◌&&◌, ◌||◌, ◌≡◌, refl, subst, sym, ◌⊎◌, inl, inr,
  List, [], ◌∷◌, map, arith, All, All-imp, update_where, any_where, Bool-cases,
}
use rc_pangjiahui.Notification.Model.{Time, pending, delivering, same_status, AttemptResult}
use rc_pangjiahui.Notification.State.{can_transition}
use rc_pangjiahui.Store.Tables.{TaskRow, Db, Reply}
use rc_pangjiahui.Store.Delivery.{
  is_pending, claim_row, claim_delivery, is_leased, result_row, result_checks,
  apply_delivery_result,
}
use rc_pangjiahui.Store.Schedule.{
  ScheduleCalls, is_due, has_passed, due_candidates, is_exhausted, is_named, schedule_due,
}
use rc_pangjiahui.Store.Schedule.Candidates.{named-is_due}
use rc_pangjiahui.Store.Schedule.Settle.{settled, settle, schedule_all-settles}
use rc_pangjiahui.Store.Invariant.{Inv}
use rc_pangjiahui.Store.Invariant.Claims.{reply_keeps}
use rc_pangjiahui.Store.Invariant.Schedule.{schedule_due_keeps}

-- A relation between the rows at the same places of two tables of the same length.
abbrev pub Pairwise : (TaskRow → TaskRow → Type 0) → List TaskRow → List TaskRow → Type 0
Pairwise R [] [] = Unit
Pairwise R (r ∷ rs) (s ∷ ss) = R r s × Pairwise R rs ss
Pairwise R _ _ = ⊥

-- A task after a statement: the same task, whose request never changes and whose counters never
-- fall, in the same status or in one that the table of transitions allows.
pub record Follows (r s : TaskRow) : Type 0 where
  pub same_task : s.id ≡ r.id
  pub same_caller : s.caller_id ≡ r.caller_id
  pub same_request : s.request ≡ r.request
  pub attempts : r.attempt_count ≤ s.attempt_count
  pub generations : r.generation ≤ s.generation
  pub allowed : (same_status r.status s.status || can_transition r.status s.status) ≡ true

-- A delivery whose lease has run out, made pending again under the next generation.
pub record Recovered (now : Time) (r s : TaskRow) : Type 0 where
  pub same_task : s.id ≡ r.id
  pub same_request : s.request ≡ r.request
  pub was_delivering : r.status ≡ delivering
  pub lease_passed : has_passed r.lease_until now ≡ true
  pub is_pending_again : s.status ≡ pending
  pub next_generation : s.generation ≡ r.generation + 1

Follows-refl : (r : TaskRow) → Follows r r
Follows-refl r = record {
  same_task = refl;
  same_caller = refl;
  same_request = refl;
  attempts = omega arith;
  generations = omega arith;
  allowed = ground arith;
}

module _ (R : TaskRow → TaskRow → Type 0) where
  Pairwise-map :
      (f : TaskRow → TaskRow) (rs : List TaskRow)
      → All (λ r. R r (f r)) rs
      → Pairwise R rs (map f rs)
  Pairwise-map f [] h = tt
  Pairwise-map f (r ∷ rs) h = (h.0, Pairwise-map f rs h.1)

  module _ (same : (r : TaskRow) → R r r) where
    Pairwise-refl : (rs : List TaskRow) → Pairwise R rs rs
    Pairwise-refl [] = tt
    Pairwise-refl (r ∷ rs) = (same r, Pairwise-refl rs)

    Pairwise-update_where :
        (p : TaskRow → Bool) (f : TaskRow → TaskRow)
        → ((r : TaskRow) → p r ≡ true → R r (f r))
        → (rs : List TaskRow) → Pairwise R rs (update_where p f rs)
    unfolding update_where
    Pairwise-update_where p f changed [] = tt
    Pairwise-update_where p f changed (r ∷ rs) = elim (Bool-cases (p r)) [
      | inl e ↦ rw e (changed r e, Pairwise-update_where p f changed rs)
      | inr e ↦ rw e (same r, Pairwise-update_where p f changed rs)
    ]

-- A claim leaves each task or takes it along an allowed transition, and changes no request and lowers
-- no counter.
pub claim_delivery-Follows :
    (call : Reply) (clock : Time) (id lease : String) (until : Time) (db : Db)
    → Pairwise Follows db.tasks (claim_delivery call clock id lease until db).0.tasks
unfolding claim_delivery can_transition
claim_delivery-Follows call clock id lease until db =
    reply_keeps (λ d. Pairwise Follows db.tasks d.tasks) call "claim delivery" db _ _
      (Pairwise-refl Follows Follows-refl db.tasks)
      (Pairwise-update_where Follows Follows-refl (is_pending id) (claim_row clock lease until)
        (λ r e. record {
          same_task = refl;
          same_caller = refl;
          same_request = refl;
          attempts = omega arith;
          generations = omega arith;
          allowed = ground (arith, e);
        })
        db.tasks)

-- The result of an attempt leaves each task or takes it along an allowed transition, and changes no
-- request and lowers no counter.
pub apply_delivery_result-Follows :
    (call : Reply) (id lease : String) (result : AttemptResult) (db : Db)
    → Pairwise Follows db.tasks (apply_delivery_result call id lease result db).0.tasks
unfolding apply_delivery_result can_transition
apply_delivery_result-Follows call id lease result db =
    elim (Bool-cases (any_where (is_leased id lease) db.tasks && not (result_checks result))) [
      | inl refused ↦ rw refused (Pairwise-refl Follows Follows-refl db.tasks)
      | inr fine ↦ rw fine (
          reply_keeps (λ d. Pairwise Follows db.tasks d.tasks) call "apply delivery result" db _ _
            (Pairwise-refl Follows Follows-refl db.tasks)
            (Pairwise-update_where Follows Follows-refl (is_leased id lease) (result_row result)
              (λ r e. record {
                same_task = refl;
                same_caller = refl;
                same_request = refl;
                attempts = omega arith;
                generations = omega arith;
                allowed = ground (arith, e);
              })
              db.tasks))
    ]

settled-Follows :
    (now : Time) (r : TaskRow)
    → is_due now r ≡ true
    → Follows r (settled now r) ⊎ Recovered now r (settled now r)
unfolding can_transition
settled-Follows now r due = elim (Bool-cases (is_exhausted now r)) [
  | inl over ↦ rw over (
      inl (record {
        same_task = refl;
        same_caller = refl;
        same_request = refl;
        attempts = omega arith;
        generations = omega arith;
        allowed = ground (arith, due);
      }))
  | inr left ↦ rw left (elim (Bool-cases (same_status r.status delivering)) [
    | inl e ↦ inr (record {
      same_task = refl;
      same_request = refl;
      was_delivering = ground (arith, e);
      lease_passed = ground (arith, e, due);
      is_pending_again = refl;
      next_generation = refl;
    })
    | inr e ↦ inl (record {
      same_task = refl;
      same_caller = refl;
      same_request = refl;
      attempts = omega arith;
      generations = omega arith;
      allowed = ground (arith, due, e);
    })
  ])
]

-- The same of a row that the scheduler may leave alone.
settle-Follows :
    (now : Time) (items : List TaskRow) (r : TaskRow)
    → (is_named items r.id ≡ true → is_due now r ≡ true)
    → Follows r (settle now items r) ⊎ Recovered now r (settle now items r)
settle-Follows now items r due = elim (Bool-cases (is_named items r.id)) [
  | inl named ↦ rw named (settled-Follows now r (due named))
  | inr other ↦ rw other (inl (Follows-refl r))
]

-- On tables that satisfy the invariant a run of the scheduler leaves each task, takes it along an
-- allowed transition, or makes a delivery whose lease has run out pending again under the next
-- generation. No request changes.
pub schedule_due-Follows :
    (calls : ScheduleCalls) (now : Time) (limit : ℕ) (db : Db)
    → Inv db
    → Pairwise
        (λ r s. Follows r s ⊎ Recovered now r s)
        db.tasks
        (schedule_due calls now limit db).0.tasks
schedule_due-Follows calls now limit db inv =
    let R : TaskRow → TaskRow → Type 0 = λ r s. Follows r s ⊎ Recovered now r s in
    let items = due_candidates calls.engine now limit db.tasks in
    schedule_due_keeps (λ d. Pairwise R db.tasks d.tasks) calls now limit db
      (Pairwise-refl R (λ r. inl (Follows-refl r)) db.tasks)
      (λ t e.
        subst (Pairwise R db.tasks)
          (sym (schedule_all-settles calls now limit db t inv.unique_ids e))
          (Pairwise-map R (settle now items) db.tasks (
            All-imp (λ r. is_named items r.id ≡ true → is_due now r ≡ true)
              (λ r. R r (settle now items r)) (λ r due. settle-Follows now items r due) db.tasks
              (named-is_due calls.engine now limit db.tasks inv.unique_ids))))

-- A recovery is none of the transitions of the table.
pub recovery-not_allowed :
    (now : Time) (r s : TaskRow) → Recovered now r s → can_transition r.status s.status ≡ false
unfolding can_transition
recovery-not_allowed now r s h = rw (h.was_delivering, h.is_pending_again) refl
