-- ===== src/Store/Schedule/Candidates.antt =====
-- The tasks that ScheduleDue picks: rows of the table, due, and no two with one identifier.
use rc_pangjiahui.Prelude.{
  =ₛ_sym, ℕ, Bool, true, false, not, ◌&&◌, ◌≡◌, refl, sym, subst, inl, inr, List, [], ◌∷◌, ◌=ₛ◌,
  Bool-cases, All, All-take, All-imp, All₂_imp, All-transpose, arith, any_where, select_where,
  order_by,
}
use rc_pangjiahui.Prelude.RowLaws.{All-select_where, All-order_by}
use rc_pangjiahui.Prelude.DistinctRows.{
  DistinctBy, DistinctBy-take, DistinctBy-select_where, DistinctBy-order_by,
}
use rc_pangjiahui.Notification.Model.{Time}
use rc_pangjiahui.Store.Tables.{TaskRow, has_id}
use rc_pangjiahui.Store.Schedule.{is_due, due_candidates, is_named, task_before}
use rc_pangjiahui.Store.Outbox.{Engine}

abbrev pub same_id : TaskRow → TaskRow → Bool
same_id a b = a.id =ₛ b.id

-- The candidate is what the table holds under its identifier.
abbrev pub Current : TaskRow → List TaskRow → Type 0
Current item tasks = All (λ r. has_id item.id r ≡ true → r ≡ item) tasks

-- With distinct identifiers each row of a table is what the table holds under its identifier.
Current-cons :
    (x item : TaskRow) (tasks : List TaskRow)
    → same_id x item ≡ false
    → Current item tasks
    → Current item (x ∷ tasks)
Current-cons x item tasks d c = ((λ e. absurd (ground (arith, e, d, =ₛ_sym x.id item.id))), c)

Current-self :
    (x : TaskRow) (tasks : List TaskRow)
    → All (λ y. same_id x y ≡ false) tasks
    → Current x (x ∷ tasks)
Current-self x tasks d = (
  (λ _. refl),
  All-imp (λ y. same_id x y ≡ false) (λ r. has_id x.id r ≡ true → r ≡ x)
      (λ r e h. absurd (ground (arith, e, h, =ₛ_sym x.id r.id))) tasks d,
)

pub Current-All :
    (tasks : List TaskRow) → DistinctBy same_id tasks → All (λ item. Current item tasks) tasks
Current-All [] d = tt
Current-All (x ∷ tasks) d = (
  Current-self x tasks d.0,
  All₂_imp (λ y. same_id x y ≡ false) (λ y. Current y tasks) (λ y. Current y (x ∷ tasks))
      (λ y e c. Current-cons x y tasks e c) tasks d.0 (Current-All tasks d.1),
)

-- A row that shares its identifier with a candidate passes every test that the candidates pass.
pub passes_of_named :
    (p : TaskRow → Bool) (r : TaskRow) (items : List TaskRow)
    → All (λ item. has_id item.id r ≡ true → r ≡ item) items
    → All (λ item. p item ≡ true) items
    → is_named items r.id ≡ true
    → p r ≡ true
unfolding any_where
passes_of_named p r [] c h e = cc
passes_of_named p r (item ∷ items) c h e = elim (Bool-cases (has_id item.id r)) [
  | inl same ↦ subst (λ x. p x ≡ true) (sym (c.0 same)) h.0
  | inr other ↦ passes_of_named p r items c.1 h.1 (ground (arith, e, other, =ₛ_sym item.id r.id))
]

select-are_due :
    (engine : Engine) (now : Time) (tasks : List TaskRow)
    → All
        (λ r. is_due now r ≡ true)
        (select_where (λ r. is_due now r && not (engine.locked r.id)) tasks)
unfolding select_where
select-are_due engine now [] = tt
select-are_due engine now (r ∷ tasks) =
    elim (Bool-cases (is_due now r && not (engine.locked r.id))) [
      | inl e ↦ rw e (ground arith, select-are_due engine now tasks)
      | inr e ↦ rw e (select-are_due engine now tasks)
    ]

module _ (engine : Engine) (now : Time) (limit : ℕ) where
  -- What holds of all rows holds of the candidates.
  pub All-due_candidates {κ} :
      (P : TaskRow → Type κ) (tasks : List TaskRow)
      → All P tasks
      → All P (due_candidates engine now limit tasks)
  unfolding due_candidates
  All-due_candidates P tasks h = All-take P limit (order_by (task_before engine) due) (
      All-order_by P (task_before engine) due
        (All-select_where P (λ r. is_due now r && not (engine.locked r.id)) tasks h))
    where
      due : List TaskRow
      due = select_where (λ r. is_due now r && not (engine.locked r.id)) tasks

  pub due_candidates-are_due :
      (tasks : List TaskRow)
      → All (λ r. is_due now r ≡ true) (due_candidates engine now limit tasks)
  unfolding due_candidates
  due_candidates-are_due tasks =
      All-take (λ r. is_due now r ≡ true) limit (order_by (task_before engine) due)
        (All-order_by (λ r. is_due now r ≡ true) (task_before engine) due
          (select-are_due engine now tasks))
    where
      due : List TaskRow
      due = select_where (λ r. is_due now r && not (engine.locked r.id)) tasks

  pub due_candidates-distinct :
      (tasks : List TaskRow)
      → DistinctBy same_id tasks
      → DistinctBy same_id (due_candidates engine now limit tasks)
  unfolding due_candidates
  due_candidates-distinct tasks d =
      DistinctBy-take same_id limit (order_by (task_before engine) due) (
        DistinctBy-order_by same_id (task_before engine) (λ r s. =ₛ_sym r.id s.id) due
          (DistinctBy-select_where same_id (λ r. is_due now r && not (engine.locked r.id)) tasks d))
    where
      due : List TaskRow
      due = select_where (λ r. is_due now r && not (engine.locked r.id)) tasks

  -- Only due tasks are settled.
  pub named-is_due :
      (tasks : List TaskRow)
      → DistinctBy same_id tasks
      → All
          (λ r. is_named (due_candidates engine now limit tasks) r.id ≡ true → is_due now r ≡ true)
          tasks
  named-is_due tasks d =
      All-imp (λ r. All (λ item. has_id item.id r ≡ true → r ≡ item) named)
        (λ r. is_named named r.id ≡ true → is_due now r ≡ true)
        (λ r c. passes_of_named (is_due now) r named c (due_candidates-are_due tasks)) tasks
        (All-transpose (λ item r. has_id item.id r ≡ true → r ≡ item) named tasks
          (All-due_candidates (λ item. Current item tasks) tasks (Current-All tasks d)))
    where
      named : List TaskRow
      named = due_candidates engine now limit tasks
