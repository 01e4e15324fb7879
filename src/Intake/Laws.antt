-- ===== src/Intake/Laws.antt =====
-- What the acceptance of a request does to the tables, and what the caller hears of it.
use rc_pangjiahui.Prelude.{
  true, false, ◌≡◌, ◌⊎◌, refl, ap, sym, ◌∙◌, inl, inr, Option, none, some, [], ◌∷◌, arith,
  any_where, Option-cases,
}
use rc_pangjiahui.Notification.Model.{Bytes, Task}
use rc_pangjiahui.Notification.Hash.{request_hash}
use rc_pangjiahui.Destination.{Destination}
use rc_pangjiahui.Store.Tables.{
  Db, Error, unknown_destination, other, Fallible, ok, err, answered, has_key,
}
use rc_pangjiahui.Store.Intake.{CreateCalls, create_or_get}
use rc_pangjiahui.Store.Intake.Atomic.{created, create_or_get_created, create_or_get-new_key}
use rc_pangjiahui.Store.Invariant.{Inv}
use rc_pangjiahui.Store.Invariant.Intake.{create_or_get-Inv}
use rc_pangjiahui.Intake.{Surroundings, Request, same_bytes, task_of, event_of, answer, create}
use rc_pangjiahui.Intake.Postgres.{repository}

pub same_bytes_refl : (xs : Bytes) → same_bytes xs xs ≡ true
unfolding same_bytes
same_bytes_refl [] = refl
same_bytes_refl (x ∷ xs) = ground (arith, same_bytes_refl xs)

-- The hash of a request, if it can be made.
abbrev pub hash_of : Surroundings → Request → Option Bytes
hash_of env request = request_hash env.canonical env.sha256 request.destination_id request.payload

pub create_called :
    (calls : CreateCalls) (env : Surroundings) (request : Request) (db : Db) (target : Destination)
    (hash : Bytes)
    → env.registry request.destination_id ≡ some target
    → hash_of env request ≡ some hash
    → create (repository calls) env request db ≡ (
      (create_or_get calls (task_of env request target hash) (event_of env) db).0,
      answer
          (task_of env request target hash)
          hash
          (create_or_get calls (task_of env request target hash) (event_of env) db).1,
    )
unfolding create
create_called calls env request db target hash found hashed = ground (arith, found, hashed)

-- An acceptance is an error that leaves the state, or a call of the repository and its answer.
pub create_cases :
    (calls : CreateCalls) (env : Surroundings) (request : Request) (db : Db)
    → ((create (repository calls) env request db).0 ≡ db)
        × ((e : Error) × ((create (repository calls) env request db).1.result ≡ err e))
      ⊎ ((target : Destination) × (hash : Bytes) × (env.registry request.destination_id
            ≡ some target)
          × (hash_of env request ≡ some hash))
unfolding create
create_cases calls env request db = elim (Option-cases (env.registry request.destination_id)) [
  | inl unknown ↦ inl (ground (arith, unknown), (unknown_destination, ground (arith, unknown)))
  | inr (target, found) ↦ elim (Option-cases (hash_of env request)) [
    | inl unhashed ↦
        inl
          (ground (arith, found, unhashed), (other "hash request", ground (arith, found, unhashed)))
    | inr (hash, hashed) ↦ inr (target, hash, found, hashed)
  ]
]

-- The acceptance of any request keeps the invariant of the tables, whatever the server makes of its
-- calls.
pub create-Inv :
    (calls : CreateCalls) (env : Surroundings) (request : Request) (db : Db)
    → Inv db
    → Inv (create (repository calls) env request db).0
create-Inv calls env request db inv = elim (create_cases calls env request db) [
  | inl (same, _) ↦ rw same inv
  | inr (target, hash, found, hashed) ↦
      rw (create_called calls env request db target hash found hashed) (
        create_or_get-Inv calls (task_of env request target hash) (event_of env) db
          (record { starts = refl; about = refl; first = refl }) inv)
]

accepted_lem :
    (task made : Task) (hash : Bytes) (r : Fallible (Option Task))
    → (answer task hash r).result ≡ ok (made, false)
    → (r ≡ ok none) × (made ≡ task)
unfolding answer
accepted_lem task made hash r h = ground arith

-- What an acceptance as a new task says of the call.
pub created_lem :
    (calls : CreateCalls) (env : Surroundings) (request : Request) (db : Db) (task : Task)
    → (create (repository calls) env request db).1.result ≡ ok (task, false)
    → (target : Destination) × (hash : Bytes) × (env.registry request.destination_id ≡ some target)
      × (hash_of env request ≡ some hash)
      × (task ≡ task_of env request target hash)
      × ((create_or_get calls (task_of env request target hash) (event_of env) db).1 ≡ ok none)
created_lem calls env request db task h = elim (create_cases calls env request db) [
  | inl (_, (e, failed)) ↦ absurd (ground (arith, h, failed))
  | inr (target, hash, found, hashed) ↦
      let called = create_called calls env request db target hash found hashed in
      let (fine, made) =
        accepted_lem (task_of env request target hash) task hash
          (create_or_get calls (task_of env request target hash) (event_of env) db).1
          (sym (ap (λ x. x.1.result) called) ∙ h) in
      (target, hash, found, hashed, made, fine)
]

-- If the caller hears that its request is accepted as a new task, the commit was answered, no task
-- had the key before, and the tables hold exactly one task and one event more, the task with the
-- caller's key and the event with the task's identifier and generation.
pub create_accepted :
    (calls : CreateCalls) (env : Surroundings) (request : Request) (db : Db) (task : Task)
    → (create (repository calls) env request db).1.result ≡ ok (task, false)
    → ((create (repository calls) env request db).0 ≡ created task (event_of env) db)
      × (calls.commit ≡ answered)
      × (any_where (has_key request.caller request.idempotency_key) db.tasks ≡ false)
      × (task.caller_id ≡ request.caller)
      × (task.idempotency_key ≡ request.idempotency_key)
      × ((event_of env).aggregate_id ≡ task.id)
      × ((event_of env).generation ≡ task.generation)
create_accepted calls env request db task h =
    let (target, hash, found, hashed, made, fine) = created_lem calls env request db task h in
    let (after, committed) =
      create_or_get_created calls (task_of env request target hash) (event_of env) db fine in
    rw made (
      ap (λ x. x.0) (create_called calls env request db target hash found hashed) ∙ after,
      committed,
      create_or_get-new_key calls (task_of env request target hash) (event_of env) db fine,
      refl,
      refl,
      refl,
      refl,
    )
