-- ===== src/Store/Schedule/Settle.antt =====
-- ScheduleDue in one pass: its loop of statements by identifier settles each due task once.
use rc_pangjiahui.Prelude.{
  =ₛ_sym, ℕ, ◌+◌, true, false, ◌≡◌, refl, sym, ap, ◌∙◌, subst, inl, inr, List, [], ◌∷◌, map, eq_iff,
  if◌then◌else◌, Bool-cases, All, All-imp, arith, update_where, any_where,
}
use rc_pangjiahui.Prelude.RowLaws.{All-update_where, All→any_where}
use rc_pangjiahui.Prelude.DistinctRows.{DistinctBy}
use rc_pangjiahui.Notification.Model.{Time, ScheduleResult}
use rc_pangjiahui.Store.Tables.{TaskRow, Db, Fallible, ok, err, has_id}
use rc_pangjiahui.Store.Schedule.{
  ScheduleCalls, due_candidates, is_exhausted, dead_row, retry_row, recovery_code, is_named,
  schedule_one, schedule_all, no_result,
}
use rc_pangjiahui.Store.Schedule.Candidates.{
  same_id, Current, Current-All, All-due_candidates, due_candidates-distinct,
}

-- What becomes of a due task: it dies if it is exhausted, and else waits for its next delivery.
abbrev pub settled : Time → TaskRow → TaskRow
settled now r =
    if is_exhausted now r
    then dead_row now r
    else retry_row (r.generation + 1) now (recovery_code r) r

abbrev pub settle : Time → List TaskRow → TaskRow → TaskRow
settle now items r = if is_named items r.id then settled now r else r

-- The change of one round, whose columns come from the candidate.
abbrev settled_by : Time → TaskRow → TaskRow → TaskRow
settled_by now item r =
    if is_exhausted now item
    then dead_row now r
    else retry_row (item.generation + 1) now (recovery_code item) r

schedule_one-tasks :
    (calls : ScheduleCalls) (now : Time) (item : TaskRow) (db db' : Db)
    (result result' : ScheduleResult)
    → schedule_one calls now item (db, result) ≡ ok (db', result')
    → db'.tasks ≡ update_where (has_id item.id) (settled_by now item) db.tasks
unfolding schedule_one
schedule_one-tasks calls now item db db' result result' e = ground arith

update-Current :
    (now : Time) (item : TaskRow) (tasks : List TaskRow)
    → Current item tasks
    → update_where (has_id item.id) (settled_by now item) tasks
      ≡ update_where (has_id item.id) (settled now) tasks
unfolding update_where
update-Current now item [] h = refl
update-Current now item (r ∷ tasks) h = elim (Bool-cases (has_id item.id r)) [
  | inl e ↦ rw (e, h.0 e, update-Current now item tasks h.1)
  | inr e ↦ rw (e, update-Current now item tasks h.1)
]

settle-update :
    (now : Time) (item : TaskRow) (items tasks : List TaskRow)
    → is_named items item.id ≡ false
    → map (settle now items) (update_where (has_id item.id) (settled now) tasks)
      ≡ map (settle now (item ∷ items)) tasks
unfolding update_where any_where
settle-update now item items [] h = refl
settle-update now item items (r ∷ tasks) h = elim (Bool-cases (has_id item.id r)) [
  | inl e ↦
      let same = (eq_iff r.id item.id).0 e in
      rw (e, settle-update now item items tasks h) (ground (arith, =ₛ_sym item.id r.id, same, h))
  | inr e ↦ rw (e, settle-update now item items tasks h) (ground (arith, =ₛ_sym item.id r.id))
]

Current-update :
    (now : Time) (item other : TaskRow) (tasks : List TaskRow)
    → same_id item other ≡ false
    → Current other tasks
    → Current other (update_where (has_id item.id) (settled now) tasks)
Current-update now item other tasks d c =
    All-update_where (λ r. has_id other.id r ≡ true → r ≡ other) (has_id item.id) (settled now)
      (λ r e _ named. absurd (apart r e (ground arith))) tasks c
  where
    apart : (r : TaskRow) → has_id item.id r ≡ true → has_id other.id r ≡ true → ⊥
    apart r e f = ground (arith, eq_iff r.id item.id, eq_iff r.id other.id, eq_iff item.id other.id)

Current-update-All :
    (now : Time) (item : TaskRow) (items tasks : List TaskRow)
    → All (λ other. same_id item other ≡ false) items
    → All (λ other. Current other tasks) items
    → All (λ other. Current other (update_where (has_id item.id) (settled now) tasks)) items
Current-update-All now item [] tasks d c = tt
Current-update-All now item (other ∷ items) tasks d c =
    (Current-update now item other tasks d.0 c.0, Current-update-All now item items tasks d.1 c.1)

not-named :
    (item : TaskRow) (items : List TaskRow)
    → All (λ other. same_id item other ≡ false) items
    → is_named items item.id ≡ false
not-named item items d = All→any_where (has_id item.id) items (
    All-imp (λ other. same_id item other ≡ false) (λ other. has_id item.id other ≡ false)
      (λ other e. =ₛ_sym other.id item.id ∙ e) items d)

map-settle_nil : (now : Time) (tasks : List TaskRow) → map (settle now []) tasks ≡ tasks
unfolding any_where
map-settle_nil now [] = refl
map-settle_nil now (r ∷ tasks) = ap (◌∷◌ r) (map-settle_nil now tasks)

-- A loop that ends well went through its first round.
pub schedule_all-cons :
    (calls : ScheduleCalls) (now : Time) (item : TaskRow) (items : List TaskRow)
    (s t : Db × ScheduleResult)
    → schedule_all calls now (item ∷ items) s ≡ ok t
    → (u : Db × ScheduleResult) × (schedule_one calls now item s ≡ ok u)
      × (schedule_all calls now items u ≡ ok t)
unfolding schedule_all
schedule_all-cons calls now item items s t e = go (schedule_one calls now item s) refl e
  where
    go :
        (f : Fallible (Db × ScheduleResult))
        → schedule_one calls now item s ≡ f
        → ◌≡◌ {A = Fallible (Db × ScheduleResult)}
            (elim f [ err x ↦ err x | ok s' ↦ schedule_all calls now items s' ])
            (ok t)
        → (u : Db × ScheduleResult) × (schedule_one calls now item s ≡ ok u)
          × (schedule_all calls now items u ≡ ok t)
    go (err x) q e' = cc
    go (ok u) q e' = (u, q, e')

-- After a round the table still holds the later candidates.
pub round-Current :
    (calls : ScheduleCalls) (now : Time) (item : TaskRow) (items : List TaskRow)
    (s u : Db × ScheduleResult)
    → All (λ other. same_id item other ≡ false) items
    → All (λ x. Current x s.0.tasks) (item ∷ items)
    → schedule_one calls now item s ≡ ok u
    → All (λ other. Current other u.0.tasks) items
round-Current calls now item items s u d c first =
    subst (λ ts. All (λ other. Current other ts) items)
      (sym (
        schedule_one-tasks calls now item s.0 u.0 s.1 u.1 first
        ∙ update-Current now item s.0.tasks c.0))
      (Current-update-All now item items s.0.tasks d c.1)

schedule_all-map :
    (calls : ScheduleCalls) (now : Time) (items : List TaskRow) (s t : Db × ScheduleResult)
    → DistinctBy same_id items
    → All (λ item. Current item s.0.tasks) items
    → schedule_all calls now items s ≡ ok t
    → t.0.tasks ≡ map (settle now items) s.0.tasks
unfolding schedule_all
schedule_all-map calls now [] s t d c e = ground (arith, map-settle_nil now s.0.tasks, e)
schedule_all-map calls now (item ∷ items) s t d c e =
    let (u, first, rest) = schedule_all-cons calls now item items s t e in
    let changed =
      schedule_one-tasks calls now item s.0 u.0 s.1 u.1 first
      ∙ update-Current now item s.0.tasks c.0 in
    schedule_all-map calls now items u t d.1 (round-Current calls now item items s u d.0 c first)
      rest
    ∙ ap (map (settle now items)) changed
    ∙ settle-update now item items s.0.tasks (not-named item items d.0)

-- The loop of ScheduleDue, if it ends without an error, settles each candidate once and leaves every
-- other task alone, in tables where no two tasks have the same identifier.
pub schedule_all-settles :
    (calls : ScheduleCalls) (now : Time) (limit : ℕ) (db : Db) (t : Db × ScheduleResult)
    → DistinctBy same_id db.tasks
    → schedule_all calls now (due_candidates calls.engine now limit db.tasks) (db, no_result) ≡ ok t
    → t.0.tasks ≡ map (settle now (due_candidates calls.engine now limit db.tasks)) db.tasks
schedule_all-settles calls now limit db t d e =
    schedule_all-map calls now (due_candidates calls.engine now limit db.tasks) (db, no_result) t
      (due_candidates-distinct calls.engine now limit db.tasks d)
      (All-due_candidates calls.engine now limit (λ item. Current item db.tasks) db.tasks
        (Current-All db.tasks d))
      e
