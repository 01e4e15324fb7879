-- ===== src/Store/Invariant/Schedule.antt =====
-- The scheduler keeps the invariant: a task that is made pending again has its event.
use rc_pangjiahui.Prelude.{
  ℕ, ◌+◌, true, ◌≡◌, sym, subst, ◌∙◌, List, [], ◌∷◌, arith, All, All-imp, All₂_imp, All-map, eq_iff,
  any_where, Bool-cases, inl, inr,
}
use rc_pangjiahui.Notification.Model.{Time, ScheduleResult}
use rc_pangjiahui.Store.Tables.{TaskRow, Db, ok, Fallible-cases, has_id}
use rc_pangjiahui.Store.Shape.{RowShape, dead_row-shape, retry_row-shape}
use rc_pangjiahui.Store.Schedule.{
  ScheduleCalls, is_due, is_exhausted, due_candidates, recovery_code, is_named, schedule_all,
  schedule_due, no_result,
}
use rc_pangjiahui.Store.Schedule.Candidates.{named-is_due, All-due_candidates}
use rc_pangjiahui.Store.Schedule.Settle.{settle, settled, schedule_all-cons, schedule_all-settles}
use rc_pangjiahui.Store.Invariant.{Inv}
use rc_pangjiahui.Store.Invariant.Claims.{reply_keeps}
use rc_pangjiahui.Store.Invariant.Rounds.{Linked, Present, schedule_one-Linked}

-- What holds before the transaction and at the end of its loop holds after it.
pub schedule_due_keeps :
    (P : Db → Type 0) (calls : ScheduleCalls) (now : Time) (limit : ℕ) (db : Db)
    → P db
    → ((t : Db × ScheduleResult)
        → schedule_all calls now (due_candidates calls.engine now limit db.tasks) (db, no_result)
          ≡ ok t
        → P t.0)
    → P (schedule_due calls now limit db).0
unfolding schedule_due
schedule_due_keeps P calls now limit db before after = elim (Bool-cases calls.begin_up) [
  | inr down ↦ simp down before
  | inl begun ↦ elim (Bool-cases calls.select_up) [
    | inr down ↦ simp (begun, down) before
    | inl read ↦
        elim (Fallible-cases (
          schedule_all calls now (due_candidates calls.engine now limit db.tasks)
            (db, no_result))) [
              | inr (x, failed) ↦ simp (begun, read, failed) before
              | inl (t, fine) ↦
                  simp (begun, read, fine)
                    (reply_keeps P calls.commit "commit schedule transaction" db t.0 t.1 before
                      (after t fine))
            ]
  ]
]

schedule_all-Linked :
    (calls : ScheduleCalls) (now : Time) (items : List TaskRow) (s t : Db × ScheduleResult)
    → schedule_all calls now items s ≡ ok t
    → Present items s.0.tasks
    → Linked s.0
    → Linked t.0
unfolding schedule_all
schedule_all-Linked calls now [] s t e p l =
    let same : s ≡ t = ground (arith, e) in subst (λ x. Linked x.0) same l
schedule_all-Linked calls now (item ∷ items) s t e p l =
    let (u, first, rest) = schedule_all-cons calls now item items s t e in
    let (linked, same) = schedule_one-Linked calls now item s u first p.0 l in
    schedule_all-Linked calls now items u t rest
      (All-imp (λ x. any_where (has_id x.id) s.0.tasks ≡ true)
        (λ x. any_where (has_id x.id) u.0.tasks ≡ true) (λ x q. same x.id ∙ q) items p.1)
      linked

pub Present-self : (tasks : List TaskRow) → Present tasks tasks
unfolding any_where
Present-self [] = tt
Present-self (r ∷ tasks) = (
  ground (arith, eq_iff r.id r.id),
  All-imp (λ x. any_where (has_id x.id) tasks ≡ true)
      (λ x. any_where (has_id x.id) (r ∷ tasks) ≡ true) (λ x q. ground (arith, q)) tasks
      (Present-self tasks),
)

settled-shape :
    (now : Time) (r : TaskRow) → is_due now r ≡ true → RowShape r → RowShape (settled now r)
settled-shape now r due s = elim (Bool-cases (is_exhausted now r)) [
  | inl over ↦ rw over (dead_row-shape now r due s)
  | inr left ↦ rw left (retry_row-shape now (r.generation + 1) (recovery_code r) r due s)
]

settle-shape :
    (now : Time) (items : List TaskRow) (r : TaskRow)
    → RowShape r
    → (is_named items r.id ≡ true → is_due now r ≡ true)
    → RowShape (settle now items r)
settle-shape now items r s due = elim (Bool-cases (is_named items r.id)) [
  | inl named ↦ rw named (settled-shape now r (due named) s)
  | inr other ↦ rw other s
]

schedule_all-Inv :
    (calls : ScheduleCalls) (now : Time) (limit : ℕ) (db : Db) (t : Db × ScheduleResult)
    → Inv db
    → schedule_all calls now (due_candidates calls.engine now limit db.tasks) (db, no_result) ≡ ok t
    → Inv t.0
schedule_all-Inv calls now limit db t inv e =
    let items = due_candidates calls.engine now limit db.tasks in
    let linked =
      schedule_all-Linked calls now items (db, no_result) t e
        (All-due_candidates calls.engine now limit (λ x. any_where (has_id x.id) db.tasks ≡ true)
          db.tasks (Present-self db.tasks))
        (record {
          unique_ids = inv.unique_ids;
          unique_keys = inv.unique_keys;
          unique_events = inv.unique_events;
          unique_generations = inv.unique_generations;
          owned = inv.owned;
          covered = inv.covered;
        }) in
    record {
      shapes =
          subst (All RowShape) (sym (schedule_all-settles calls now limit db t inv.unique_ids e)) (
            All-map RowShape (settle now items) db.tasks (
              All₂_imp RowShape (λ r. is_named items r.id ≡ true → is_due now r ≡ true)
                (λ r. RowShape (settle now items r)) (λ r s due. settle-shape now items r s due)
                db.tasks inv.shapes (named-is_due calls.engine now limit db.tasks inv.unique_ids)));
      unique_ids = linked.unique_ids;
      unique_keys = linked.unique_keys;
      unique_events = linked.unique_events;
      unique_generations = linked.unique_generations;
      owned = linked.owned;
      covered = linked.covered;
    }

-- A run of the scheduler keeps the invariant, whatever the server makes of its calls.
pub schedule_due-Inv :
    (calls : ScheduleCalls) (now : Time) (limit : ℕ) (db : Db)
    → Inv db
    → Inv (schedule_due calls now limit db).0
schedule_due-Inv calls now limit db inv =
    schedule_due_keeps Inv calls now limit db inv
      (λ t e. schedule_all-Inv calls now limit db t inv e)
