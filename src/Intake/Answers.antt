-- ===== src/Intake/Answers.antt =====
-- What a caller hears whose key is known, and what it may rely on.
use rc_pangjiahui.Prelude.{
  String, Bool, true, false, ◌≡◌, ◌⊎◌, refl, ap, subst, sym, ◌∙◌, inl, inr, Option, none, some,
  arith, eq_iff, any_where, find_where, if◌then◌else◌, Bool-cases,
}
use rc_pangjiahui.Prelude.RowLaws.{find_where-last}
use rc_pangjiahui.Notification.Model.{Time, Bytes, Task}
use rc_pangjiahui.Destination.{Destination}
use rc_pangjiahui.Store.Tables.{
  TaskRow, Db, idempotency_conflict, Fallible, ok, err, has_id, has_key, task_checks,
}
use rc_pangjiahui.Store.Query.{key_view}
use rc_pangjiahui.Store.Intake.{row_of, CreateCalls, create_or_get}
use rc_pangjiahui.Store.Intake.Atomic.{create_or_get-existing, create_or_get_again}
use rc_pangjiahui.Intake.{Surroundings, Request, same_bytes, task_of, event_of, answer, create}
use rc_pangjiahui.Intake.Postgres.{repository}
use rc_pangjiahui.Intake.Laws.{
  create_accepted, create_called, create_cases, created_lem, hash_of, same_bytes_refl,
}

answered_lem :
    (task : Task) (hash : Bytes) (r : TaskRow)
    → r.request_hash ≡ hash
    → answer task hash (ok (some (key_view r)))
      ≡ record { result = ok (key_view r, true); observed = "accepted" }
unfolding answer
answered_lem task hash r same = rw (same, same_bytes_refl hash) refl

-- A request under a key that the tables hold is answered with the task that has the key, if it is
-- for the same hash, and with a conflict otherwise. The tables stay as they are. The server answers
-- the calls before the commit, the new identifier is free and the new row is valid.
pub create_again :
    (calls : CreateCalls) (env : Surroundings) (request : Request) (db : Db) (target : Destination)
    (hash : Bytes) (r : TaskRow)
    → calls.begin_up ≡ true
    → calls.task_up ≡ true
    → calls.get_up ≡ true
    → env.registry request.destination_id ≡ some target
    → hash_of env request ≡ some hash
    → task_checks (row_of (task_of env request target hash)) ≡ true
    → any_where (has_id env.task_id) db.tasks ≡ false
    → find_where (has_key request.caller request.idempotency_key) db.tasks ≡ some r
    → create (repository calls) env request db ≡ (
      db,
      if same_bytes r.request_hash hash
          then record { result = ok (key_view r, true); observed = "accepted" }
          else record { result = err idempotency_conflict; observed = "idempotency_conflict" },
    )
unfolding create answer
create_again calls env request db target hash r begun up got known hashed valid free found =
    rw
      (
        create_called calls env request db target hash known hashed,
        create_or_get_again calls (task_of env request target hash) (event_of env) db r begun up got
            valid free found,
      )
      (elim (Bool-cases (same_bytes r.request_hash hash)) [
        | inl same ↦ ground (arith, same)
        | inr differs ↦ ground (arith, differs)
      ])

-- Once a request is accepted as a new task, the same request under the same key, at any later time,
-- is answered with that task and changes nothing. The server answers the calls before the commit,
-- the second identifier is free and the second row is valid.
pub create_twice :
    (first calls : CreateCalls) (env : Surroundings) (now : Time) (task_id event_id : String)
    (request : Request) (db : Db) (task : Task)
    → calls.begin_up ≡ true
    → calls.task_up ≡ true
    → calls.get_up ≡ true
    → (create (repository first) env request db).1.result ≡ ok (task, false)
    → any_where (has_id task_id) (create (repository first) env request db).0.tasks ≡ false
    → task_checks (record (row_of task) { id = task_id; created_at = now; updated_at = now }) ≡ true
    → create
        (repository calls)
        (record env { now = now; task_id = task_id; event_id = event_id })
        request
        (create (repository first) env request db).0
      ≡ (
        (create (repository first) env request db).0,
        record { result = ok (key_view (row_of task), true); observed = "accepted" },
      )
create_twice first calls env now task_id event_id request db task begun up got accepted free valid =
    let (target, hash, found, hashed, made, fine) =
      created_lem first env request db task accepted in
    let (after, _, new_key, _, _, _, _) = create_accepted first env request db task accepted in
    create_again calls (record env { now = now; task_id = task_id; event_id = event_id }) request
      (create (repository first) env request db).0 target hash (row_of task) begun up got found
      hashed
      (subst
        (λ t.
          task_checks (record (row_of t) { id = task_id; created_at = now; updated_at = now })
          ≡ true)
        made valid)
      free
      (rw (after, made)
        (find_where-last (has_key request.caller request.idempotency_key) db.tasks
          (row_of (task_of env request target hash)) new_key
          (ground (
            arith,
            eq_iff request.caller request.caller,
            eq_iff request.idempotency_key request.idempotency_key,
          ))))
    ∙ rw (ap (λ t. t.request_hash) made, same_bytes_refl hash) refl

answered_cases :
    (task made : Task) (hash : Bytes) (known : Bool) (r : Fallible (Option Task))
    → (answer task hash r).result ≡ ok (made, known)
    → ((r ≡ ok none) × (known ≡ false)) ⊎ (r ≡ ok (some made))
unfolding answer
answered_cases task made hash known (err e) h = cc
answered_cases task made hash known (ok none) h = inl (refl, cc)
answered_cases task made hash known (ok (some existing)) h =
    elim (Bool-cases (same_bytes existing.request_hash hash)) [
      | inl same ↦ inr (ground (arith, h, same))
      | inr differs ↦ absurd (ground (arith, h, differs))
    ]

-- Whenever the caller hears that its request is accepted, as a new or as a known task, the tables
-- hold a task under its name and key, with the identifier and the status that it hears.
pub create_stored :
    (calls : CreateCalls) (env : Surroundings) (request : Request) (db : Db) (task : Task)
    (known : Bool)
    → (create (repository calls) env request db).1.result ≡ ok (task, known)
    → (r : TaskRow) × (find_where
          (has_key request.caller request.idempotency_key)
          (create (repository calls) env request db).0.tasks
        ≡ some r)
      × (task.id ≡ r.id)
      × (task.status ≡ r.status)
create_stored calls env request db task known h = elim (create_cases calls env request db) [
  | inl (_, (e, failed)) ↦ absurd (ground (arith, h, failed))
  | inr (target, hash, found, hashed) ↦
      let called = create_called calls env request db target hash found hashed in
      let new = task_of env request target hash in
      let result = create_or_get calls new (event_of env) db in
      elim (answered_cases new task hash known result.1 (sym (ap (λ x. x.1.result) called) ∙ h)) [
        | inl (_, is_new) ↦
            let (after, _, new_key, caller, key, _, _) = create_accepted calls env request db task (
              subst (λ b. (create (repository calls) env request db).1.result ≡ ok (task, b)) is_new
                h) in
            (
              row_of task,
              subst
                  (λ d.
                    find_where (has_key request.caller request.idempotency_key) d.tasks
                    ≡ some (row_of task))
                  (sym after)
                  (find_where-last (has_key request.caller request.idempotency_key) db.tasks
                    (row_of task) new_key
                    (ground (
                      arith,
                      caller,
                      key,
                      eq_iff task.caller_id request.caller,
                      eq_iff task.idempotency_key request.idempotency_key,
                    ))),
              refl,
              refl,
            )
        | inr existing ↦
            let (r, there, same) =
              create_or_get-existing calls new (event_of env) db task existing in
            (r, rw called there, ap (λ t. t.id) same, ap (λ t. t.status) same)
      ]
]
