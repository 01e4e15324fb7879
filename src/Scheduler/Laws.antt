-- ===== src/Scheduler/Laws.antt =====
-- What a pass of the scheduler counts, and what a pass of the retention leaves.
use rc_pangjiahui.Prelude.{
  ℕ, ◌+◌, ◌≤◌, true, false, not, ◌≡◌, refl, ap, ◌∙◌, All₂_imp, eq_iff, subst, sym, some, List, [],
  ◌∷◌, arith, length, take, All, All-imp, All-take, All-always, All-transpose, select_where,
  order_by, any_where, ◌&&◌, ◌||◌, ◌-ℤ◌, Bool-cases, inl, inr,
}
use rc_pangjiahui.Notification.Model.{Time, Duration, ScheduleResult}
use rc_pangjiahui.Store.Tables.{TaskRow, Db, ok, Fallible-cases, Reply, has_id}
use rc_pangjiahui.Store.Outbox.{Engine}
use rc_pangjiahui.Store.Schedule.{
  ScheduleCalls, due_candidates, schedule_one, schedule_all, no_result, schedule_due,
  delete_terminal_before, is_expired, older, expired_candidates, is_named,
}
use rc_pangjiahui.Prelude.RowLaws.{
  any_where-select_where, All-select_where, All-select_into, All-order_by,
}
use rc_pangjiahui.Store.Schedule.Candidates.{Current, Current-All, passes_of_named}
use rc_pangjiahui.Store.Schedule.Settle.{schedule_all-cons}
use rc_pangjiahui.Store.Invariant.{Inv}
use rc_pangjiahui.Store.Invariant.Claims.{reply_keeps}
use rc_pangjiahui.Store.Invariant.Schedule.{Present-self}
use rc_pangjiahui.Store.Invariant.Removal.{delete_terminal_before-Inv}
use rc_pangjiahui.Scheduler.{Repository, schedule_once, remove_once}

abbrev pub repository : ScheduleCalls → Reply → Repository Db
repository calls call = record {
  schedule_due = λ now limit db. schedule_due calls now limit db;
  delete_terminal_before =
      λ cutoff limit db. delete_terminal_before call calls.engine cutoff limit db;
}

schedule_one-counts :
    (calls : ScheduleCalls) (now : Time) (item : TaskRow) (s t : Db × ScheduleResult)
    → schedule_one calls now item s ≡ ok t
    → (t.1.scheduled + t.1.dead ≡ s.1.scheduled + s.1.dead + 1)
      × (t.1.recovered_leases + s.1.scheduled ≤ s.1.recovered_leases + t.1.scheduled)
unfolding schedule_one
schedule_one-counts calls now item s t h = ground arith

schedule_all-counts :
    (calls : ScheduleCalls) (now : Time) (items : List TaskRow) (s t : Db × ScheduleResult)
    → schedule_all calls now items s ≡ ok t
    → (t.1.scheduled + t.1.dead ≡ s.1.scheduled + s.1.dead + length items)
      × (t.1.recovered_leases + s.1.scheduled ≤ s.1.recovered_leases + t.1.scheduled)
unfolding schedule_all
schedule_all-counts calls now [] s t h =
    let same : s ≡ t = cc in
    subst
      (λ x.
        (x.1.scheduled + x.1.dead ≡ s.1.scheduled + s.1.dead + 0)
        × (x.1.recovered_leases + s.1.scheduled ≤ s.1.recovered_leases + x.1.scheduled))
      same (omega arith, omega arith)
schedule_all-counts calls now (item ∷ items) s t h =
    let (u, first, rest) = schedule_all-cons calls now item items s t h in
    let one = schedule_one-counts calls now item s u first in
    let more = schedule_all-counts calls now items u t rest in
    (omega (arith, one.0, more.0), omega (arith, one.1, more.1))

schedule_due-ok :
    (calls : ScheduleCalls) (now : Time) (limit : ℕ) (db : Db) (r : ScheduleResult)
    → (schedule_due calls now limit db).1 ≡ ok r
    → (t : Db × ScheduleResult) × (schedule_all calls now
          (due_candidates calls.engine now limit db.tasks)
          (db, no_result)
        ≡ ok t)
      × (t.1 ≡ r)
unfolding schedule_due
schedule_due-ok calls now limit db r h =
    elim (Fallible-cases
      (schedule_all calls now (due_candidates calls.engine now limit db.tasks) (db, no_result))) [
        | inl (t, fine) ↦ (t, fine, ground (arith, h, fine))
        | inr (e, failed) ↦ absurd (ground (arith, h, failed))
      ]

-- A pass of the scheduler without an error accounts for each candidate once, as rescheduled or as
-- dead, and counts a recovered lease only where it reschedules; the observer is told the same.
pub schedule_once_counts :
    (calls : ScheduleCalls) (call : Reply) (limit : ℕ) (now : Time) (db : Db) (r : ScheduleResult)
    → (schedule_once (repository calls call) limit now db).1 ≡ ok r
    → (r.scheduled + r.dead ≡ length (due_candidates calls.engine now limit db.tasks))
      × (r.recovered_leases ≤ r.scheduled)
      × ((schedule_once (repository calls call) limit now db).2 ≡ some r)
unfolding schedule_once
schedule_once_counts calls call limit now db r h =
    let (t, fine, same) = schedule_due-ok calls now limit db r (ground (arith, h)) in
    let (total, leases) =
      schedule_all-counts calls now (due_candidates calls.engine now limit db.tasks) (db, no_result)
        t fine in
    (
      omega (arith, total, ap (λ x. x.scheduled) same, ap (λ x. x.dead) same),
      omega (arith, leases, ap (λ x. x.recovered_leases) same, ap (λ x. x.scheduled) same),
      ground (arith, h),
    )

-- Only expired tasks are chosen for removal.
named-is_expired :
    (engine : Engine) (cutoff : Time) (limit : ℕ) (db : Db)
    → Inv db
    → All
        (λ r.
          is_named (expired_candidates engine cutoff limit db) r.id ≡ true
          → is_expired cutoff db r ≡ true)
        db.tasks
unfolding expired_candidates
named-is_expired engine cutoff limit db inv =
    let expired : List TaskRow =
      select_where (λ r. is_expired cutoff db r && not (engine.locked r.id)) db.tasks in
    let named = take limit (order_by (older engine) expired) in
    All-imp (λ r. All (λ item. has_id item.id r ≡ true → r ≡ item) named)
      (λ r. is_named named r.id ≡ true → is_expired cutoff db r ≡ true)
      (λ r c. passes_of_named (is_expired cutoff db) r named c (
        All-take (λ r. is_expired cutoff db r ≡ true) limit (order_by (older engine) expired)
          (All-order_by (λ r. is_expired cutoff db r ≡ true) (older engine) expired
            (All-select_into (λ _. Unit {0}) (λ r. is_expired cutoff db r ≡ true)
              (λ r. is_expired cutoff db r && not (engine.locked r.id)) (λ r e _. ground (arith, e))
              db.tasks (All-always (λ _. Unit {0}) (λ _. tt) db.tasks)))))
      db.tasks
      (All-transpose (λ item r. has_id item.id r ≡ true → r ≡ item) named db.tasks
        (All-take (λ item. Current item db.tasks) limit (order_by (older engine) expired)
          (All-order_by (λ item. Current item db.tasks) (older engine) expired
            (All-select_where (λ item. Current item db.tasks)
              (λ r. is_expired cutoff db r && not (engine.locked r.id)) db.tasks
              (Current-All db.tasks inv.unique_ids)))))

removal-stays :
    (call : Reply) (engine : Engine) (cutoff : Time) (limit : ℕ) (db : Db)
    → Inv db
    → All
        (λ r.
          is_expired cutoff db r ≡ false
          → any_where (has_id r.id) (delete_terminal_before call engine cutoff limit db).0.tasks
            ≡ true)
        db.tasks
unfolding delete_terminal_before
removal-stays call engine cutoff limit db inv =
    let gone = expired_candidates engine cutoff limit db in
    All₂_imp (λ x. any_where (has_id x.id) db.tasks ≡ true)
      (λ r. is_named gone r.id ≡ true → is_expired cutoff db r ≡ true)
      (λ r.
        is_expired cutoff db r ≡ false
        → any_where (has_id r.id) (delete_terminal_before call engine cutoff limit db).0.tasks
          ≡ true)
      (λ r there expires kept.
        reply_keeps (λ d. any_where (has_id r.id) d.tasks ≡ true) call
          "delete terminal notifications" db _ _ there
          (any_where-select_where (has_id r.id) (λ x. not (is_named gone x.id))
              (λ x e.
                let same = (eq_iff x.id r.id).0 e in
                subst (λ id. not (is_named gone id) ≡ true) (sym same)
                  (elim (Bool-cases (is_named gone r.id)) [
                    | inl named ↦ absurd (ground (arith, kept, expires named))
                    | inr other ↦ rw other refl
                  ]))
              db.tasks
            ∙ there))
      db.tasks (Present-self db.tasks) (named-is_expired engine cutoff limit db inv)

remove_once-db :
    (calls : ScheduleCalls) (call : Reply) (retention : Duration) (limit : ℕ) (now : Time) (db : Db)
    → (remove_once (repository calls call) retention limit now db).0
      ≡ (delete_terminal_before call calls.engine (now -ℤ retention) limit db).0
unfolding remove_once
remove_once-db calls call retention limit now db =
    elim (Fallible-cases (delete_terminal_before call calls.engine (now -ℤ retention) limit db).1) [
      | inl (n, fine) ↦ rw (remove_once, fine) refl
      | inr (e, failed) ↦ rw (remove_once, failed) refl
    ]

-- A pass of the retention keeps the invariant, and on tables that satisfy it keeps every task that is not delivered or dead
-- since before the retention, or that has an event which is not published yet.
pub remove_once_keeps :
    (calls : ScheduleCalls) (call : Reply) (retention : Duration) (limit : ℕ) (now : Time) (db : Db)
    → Inv db
    → Inv (remove_once (repository calls call) retention limit now db).0
      × All
          (λ r.
            (is_expired (now -ℤ retention) db r
              || any_where
                  (has_id r.id)
                  (remove_once (repository calls call) retention limit now db).0.tasks)
            ≡ true)
          db.tasks
remove_once_keeps calls call retention limit now db inv =
    subst
      (λ d.
        Inv d
        × All (λ r. (is_expired (now -ℤ retention) db r || any_where (has_id r.id) d.tasks) ≡ true)
            db.tasks)
      (sym (remove_once-db calls call retention limit now db))
      (
        delete_terminal_before-Inv call calls.engine (now -ℤ retention) limit db inv,
        All-imp
            (λ r.
              is_expired (now -ℤ retention) db r ≡ false
              → any_where (has_id r.id)
                  (delete_terminal_before call calls.engine (now -ℤ retention) limit db).0.tasks
                ≡ true)
            (λ r.
              (is_expired (now -ℤ retention) db r
                || any_where (has_id r.id)
                    (delete_terminal_before call calls.engine (now -ℤ retention) limit db).0.tasks)
              ≡ true)
            (λ r stays. elim (Bool-cases (is_expired (now -ℤ retention) db r)) [
              | inl over ↦ rw over refl
              | inr kept ↦ rw kept (stays kept)
            ])
            db.tasks (removal-stays call calls.engine (now -ℤ retention) limit db inv),
      )
