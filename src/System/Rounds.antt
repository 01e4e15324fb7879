-- ===== src/System/Rounds.antt =====
-- A run of the scheduler keeps events, tasks and messages tied together.
use rc_pangjiahui.Prelude.{
  ℕ, ◌+◌, ◌≤◌, String, true, ◌≡◌, refl, subst, ap, inl, inr, List, [], ◌∷◌, arith, All, All-imp,
  All₂_imp, update_where, Bool-cases,
}
use rc_pangjiahui.Prelude.RowLaws.{All-update_into, any_where-append}
use rc_pangjiahui.Prelude.DistinctRows.{DistinctBy}
use rc_pangjiahui.Notification.Model.{Time, ScheduleResult}
use rc_pangjiahui.Store.Tables.{TaskRow, EventRow, Db, ok, has_id, is_for}
use rc_pangjiahui.Store.Query.{ready_event}
use rc_pangjiahui.Store.Schedule.{
  ScheduleCalls, due_candidates, dead_row, retry_row, recovery_code, schedule_one, schedule_all,
  schedule_due, no_result,
}
use rc_pangjiahui.Store.Schedule.Candidates.{
  same_id, Current, Current-All, All-due_candidates, due_candidates-distinct,
}
use rc_pangjiahui.Store.Schedule.Settle.{schedule_all-cons, round-Current}
use rc_pangjiahui.Store.Invariant.{Inv}
use rc_pangjiahui.Store.Invariant.Rounds.{insert_or_skip-cases, schedule_one-cases}
use rc_pangjiahui.Store.Invariant.Schedule.{schedule_due_keeps}
use rc_pangjiahui.System.{Mail, IsUnusedDigest}
use rc_pangjiahui.System.Fits.{Fits, Consistent, Fits-renewed, Consistent-update, Consistent-event}
use rc_pangjiahui.System.Writes.{Held, Marked-event}

module _ (mail : Mail) (calls : ScheduleCalls) (now : Time) where
  -- The rows that a round makes wait go on to a generation of their own.
  retried-Consistent :
      (item : TaskRow) (tasks : List TaskRow) (events : List EventRow)
      → Current item tasks
      → Consistent mail tasks events
      → Consistent mail
          (update_where
            (has_id item.id)
            (retry_row (item.generation + 1) now (recovery_code item))
            tasks)
          events
  retried-Consistent item tasks events current =
      let f = retry_row (item.generation + 1) now (recovery_code item) in
      All-imp (λ e. All (Fits mail e) tasks)
        (λ e. All (Fits mail e) (update_where (has_id item.id) f tasks))
        (λ e h.
          All-update_into (λ r. (has_id item.id r ≡ true → r ≡ item) × Fits mail e r) (Fits mail e)
            (has_id item.id) f
            (λ r named q.
              let same = ap (λ (x : TaskRow). x.generation) (q.0 named) in
              Fits-renewed mail e r (f r)
                (record {
                  same_id = refl;
                  grows = omega (arith, same);
                  anew = λ _. omega (arith, same);
                })
                q.1)
            (λ r _ q. q.1) tasks
            (All₂_imp (λ r. has_id item.id r ≡ true → r ≡ item) (Fits mail e) _ (λ r c q. (c, q))
              tasks current h))
        events

  retried-bounds :
      (id code : String) (generation : ℕ) (tasks : List TaskRow)
      → All
          (λ r. has_id id r ≡ true → generation ≤ r.generation)
          (update_where (has_id id) (retry_row generation now code) tasks)
  unfolding update_where
  retried-bounds id code generation [] = tt
  retried-bounds id code generation (r ∷ tasks) = elim (Bool-cases (has_id id r)) [
    | inl e ↦ rw e ((λ _. omega arith), retried-bounds id code generation tasks)
    | inr e ↦ rw e (((λ q. absurd (ground (arith, e, q))), retried-bounds id code generation tasks))
  ]

  -- One round.
  schedule_one-Held :
      (item : TaskRow) (s t : Db × ScheduleResult)
      → schedule_one calls now item s ≡ ok t
      → Current item s.0.tasks
      → IsUnusedDigest mail calls.digest s.0.events
      → Held mail s.0
      → Held mail t.0 × IsUnusedDigest mail calls.digest t.0.events
  schedule_one-Held item s t e current unused h = elim (schedule_one-cases calls now item s t e) [
    | inl died ↦ rw died (
      (
        Consistent-update mail (has_id item.id) (dead_row now)
            (λ r _. record { same_id = refl; grows = omega arith; anew = λ q. ground arith })
            s.0.tasks s.0.events h.0,
        h.1,
      ),
      unused,
    )
    | inr (events, fine, retried) ↦
        let n = item.generation + 1 in
        let event =
          ready_event (calls.digest item.id n) item.id n (("notification_id", item.id) ∷ []) now in
        let old = retried-Consistent item s.0.tasks s.0.events current h.0 in
        elim (insert_or_skip-cases event s.0.events events fine) [
          | inl (same, _) ↦ rw (retried, same) ((old, h.1), unused)
          | inr (added, new, _) ↦
              rw (retried, added)
                (
                  (
                    Consistent-event mail event (unused item.id n new)
                        (update_where (has_id item.id) (retry_row n now (recovery_code item))
                          s.0.tasks)
                        s.0.events (retried-bounds item.id (recovery_code item) n s.0.tasks) old,
                    Marked-event mail event s.0.events refl h.1,
                  ),
                  λ id k q.
                      unused id k
                        (ground (arith, q, any_where-append (is_for id k) s.0.events (event ∷ []))),
                )
        ]
  ]

  schedule_all-Held :
      (items : List TaskRow) (s t : Db × ScheduleResult)
      → schedule_all calls now items s ≡ ok t
      → DistinctBy same_id items
      → All (λ item. Current item s.0.tasks) items
      → IsUnusedDigest mail calls.digest s.0.events
      → Held mail s.0
      → Held mail t.0
  unfolding schedule_all
  schedule_all-Held [] s t e d c unused h =
      let same : s ≡ t = ground (arith, e) in subst (λ x. Held mail x.0) same h
  schedule_all-Held (item ∷ items) s t e d c unused h =
      let (u, first, rest) = schedule_all-cons calls now item items s t e in
      let (held, unused') = schedule_one-Held item s u first c.0 unused h in
      schedule_all-Held items u t rest d.1 (round-Current calls now item items s u d.0 c first)
        unused' held

  pub schedule_due-Held :
      (limit : ℕ) (db : Db)
      → Inv db
      → IsUnusedDigest mail calls.digest db.events
      → Held mail db
      → Held mail (schedule_due calls now limit db).0
  schedule_due-Held limit db inv unused h =
      schedule_due_keeps (Held mail) calls now limit db h λ t e.
        schedule_all-Held (due_candidates calls.engine now limit db.tasks) (db, no_result) t e
          (due_candidates-distinct calls.engine now limit db.tasks inv.unique_ids)
          (All-due_candidates calls.engine now limit (λ item. Current item db.tasks) db.tasks
            (Current-All db.tasks inv.unique_ids))
          unused h
