-- ===== src/Store/Invariant/Claims.antt =====
-- Claims of tasks and events, results of deliveries, and replays keep the invariant.
use rc_pangjiahui.Prelude.{
  ℕ, ◌+◌, String, true, not, ◌&&◌, ◌≡◌, refl, [], ◌∷◌, some, arith, All₂_imp, ◌||◌, ap, eq_iff,
  update_where, any_where, find_where, Bool-cases, Option-cases, inl, inr,
}
use rc_pangjiahui.Prelude.RowLaws.{All-update_where, All-update_into}
use rc_pangjiahui.Prelude.DistinctRows.{find_where_unique}
use rc_pangjiahui.Notification.Model.{Time, AttemptResult}
use rc_pangjiahui.Store.Tables.{
  TaskRow, EventRow, Db, Reply, answered, refused, lost, reply, is_for, insert_event,
}
use rc_pangjiahui.Store.Shape.{
  RowShape, IsComplete, claim_row-shape, result_row-shape, replay_row-shape,
}
use rc_pangjiahui.Store.Query.{
  TxCalls, is_dead, replay_row, replay_body, replay_dead_atomic, ready_event,
}
use rc_pangjiahui.Store.Delivery.{
  is_pending, claim_row, claim_delivery, is_leased, result_row, result_checks,
  apply_delivery_result,
}
use rc_pangjiahui.Store.Outbox.{
  Engine, is_candidate, outbox_candidates, claim_event_row, claim_outbox, is_held, published_row,
  mark_published,
}
use rc_pangjiahui.Store.Invariant.{Inv, same_task}
use rc_pangjiahui.Store.Invariant.Changes.{
  KeepsKeys, update_tasks-Inv, update_events-Inv, update-unique_ids, update-unique_keys,
  update-Owned, Awaits, insert_event-Inv,
}

-- What holds before and after a statement holds under every reply.
pub reply_keeps {ℓ} :
    {A : Type ℓ} (P : Db → Type 0) (call : Reply) (text : String) (db db' : Db) (a : A)
    → P db
    → P db'
    → P (reply call text db (db', a)).0
reply_keeps P answered text db db' a h h' = h'
reply_keeps P refused text db db' a h h' = h
reply_keeps P lost text db db' a h h' = h'

claim_row-keys :
    (clock : Time) (lease : String) (until : Time) → KeepsKeys (claim_row clock lease until)
claim_row-keys clock lease until = record {
  same_id = λ r. refl;
  same_caller = λ r. refl;
  same_idempotency_key = λ r. refl;
}

result_row-keys : (result : AttemptResult) → KeepsKeys (result_row result)
result_row-keys result = record {
  same_id = λ r. refl;
  same_caller = λ r. refl;
  same_idempotency_key = λ r. refl;
}

-- A claim of a task, whatever the server makes of it, keeps the invariant.
pub claim_delivery-Inv :
    (call : Reply) (clock : Time) (id lease : String) (until : Time) (db : Db)
    → Inv db
    → Inv (claim_delivery call clock id lease until db).0
unfolding claim_delivery
claim_delivery-Inv call clock id lease until db inv =
    reply_keeps Inv call "claim delivery" db _ _ inv (
      update_tasks-Inv (is_pending id) (claim_row clock lease until)
        (claim_row-keys clock lease until) db (λ r. refl)
        (λ r e s. claim_row-shape clock id lease until r e s) inv)

-- So does the result of a delivery, if one that asks for a retry says when.
pub apply_delivery_result-Inv :
    (call : Reply) (id lease : String) (result : AttemptResult) (db : Db)
    → IsComplete result
    → Inv db
    → Inv (apply_delivery_result call id lease result db).0
unfolding apply_delivery_result
apply_delivery_result-Inv call id lease result db c inv =
    elim (Bool-cases (any_where (is_leased id lease) db.tasks && not (result_checks result))) [
      | inl e ↦ rw e inv
      | inr e ↦ rw e (
          reply_keeps Inv call "apply delivery result" db _ _ inv (
            update_tasks-Inv (is_leased id lease) (result_row result) (result_row-keys result) db
              (λ r. refl) (λ r _ _. result_row-shape id lease result r c) inv))
    ]

-- A claim of events keeps it.
pub claim_outbox-Inv :
    (call : Reply) (engine : Engine) (now : Time) (limit : ℕ) (token : String) (until : Time)
    (db : Db)
    → Inv db
    → Inv (claim_outbox call engine now limit token until db).0
unfolding claim_outbox
claim_outbox-Inv call engine now limit token until db inv =
    reply_keeps Inv call "claim outbox" db _ _ inv (
      update_events-Inv (is_candidate (outbox_candidates engine now limit db.events))
        (claim_event_row token until)
        (record { same_id = λ e. refl; same_aggregate = λ e. refl; same_number = λ e. refl }) db
        inv)

-- The mark of a published event keeps it.
pub mark_published-Inv :
    (call : Reply) (id token : String) (at : Time) (db : Db)
    → Inv db
    → Inv (mark_published call id token at db).0
unfolding mark_published
mark_published-Inv call id token at db inv =
    reply_keeps Inv call "mark outbox published" db _ _ inv (
      update_events-Inv (is_held id token) (published_row at)
        (record { same_id = λ e. refl; same_aggregate = λ e. refl; same_number = λ e. refl }) db
        inv)

replay_row-keys : (now : Time) → KeepsKeys (replay_row now)
replay_row-keys now = record {
  same_id = λ r. refl;
  same_caller = λ r. refl;
  same_idempotency_key = λ r. refl;
}

dead_same :
    (id : String) (x y : TaskRow) → is_dead id x ≡ true → is_dead id y ≡ true → same_task x y ≡ true
dead_same id x y hx hy = ground (arith, eq_iff x.id id, eq_iff y.id id, eq_iff x.id y.id)

-- The tables between the two statements of a replay of the row `r`.
replay-Awaits :
    (id : String) (now : Time) (db : Db) (r : TaskRow) (e : EventRow)
    → Inv db
    → find_where (is_dead id) db.tasks ≡ some r
    → e.aggregate_id ≡ id
    → e.generation ≡ r.generation + 1
    → Awaits (record db { tasks = update_where (is_dead id) (replay_row now) db.tasks }) e
replay-Awaits id now db r e inv found agg gen = record {
  shapes =
      All-update_where RowShape (is_dead id) (replay_row now)
        (λ x h s. replay_row-shape id now x h s) db.tasks inv.shapes;
  unique_ids =
      update-unique_ids (is_dead id) (replay_row now) (replay_row-keys now) db.tasks inv.unique_ids;
  unique_keys =
      update-unique_keys (is_dead id) (replay_row now) (replay_row-keys now) db.tasks
        inv.unique_keys;
  unique_events = inv.unique_events;
  unique_generations = inv.unique_generations;
  owned =
      update-Owned (is_dead id) (replay_row now) (replay_row-keys now) db.events db.tasks inv.owned;
  covered_by =
      All-update_into
        (λ x.
          (any_where (is_for x.id x.generation) db.events ≡ true) × (is_dead id x ≡ true → x ≡ r))
        (λ x. (any_where (is_for x.id x.generation) db.events || is_for x.id x.generation e) ≡ true)
        (is_dead id) (replay_row now)
        (λ x h c. ground (
          arith,
          ap (λ (y : TaskRow). y.generation) (c.1 h),
          agg,
          gen,
          h,
          eq_iff x.id id,
          eq_iff e.aggregate_id x.id,
        ))
        (λ x _ c. rw c.0) db.tasks
        (All₂_imp (λ x. any_where (is_for x.id x.generation) db.events ≡ true)
          (λ x. is_dead id x ≡ true → x ≡ r)
          (λ x.
            (any_where (is_for x.id x.generation) db.events ≡ true) × (is_dead id x ≡ true → x ≡ r))
          (λ x c u. (c, u)) db.tasks inv.covered
          (find_where_unique same_task (is_dead id) (λ x y hx hy. dead_same id x y hx hy) db.tasks
            inv.unique_ids found));
}

replay_body-Inv :
    (calls : TxCalls) (id : String) (now : Time) (event_id : String) (db : Db)
    → Inv db
    → Inv (replay_body calls id now event_id db).0
unfolding replay_body
replay_body-Inv calls id now event_id db inv = elim (Bool-cases calls.update_up) [
  | inr u ↦ rw u inv
  | inl u ↦ elim (Option-cases (find_where (is_dead id) db.tasks)) [
    | inl missing ↦ rw (u, missing, replay_body) inv
    | inr (r, found) ↦
        let updated = record db { tasks = update_where (is_dead id) (replay_row now) db.tasks } in
        let event = ready_event event_id id (r.generation + 1) (("notification_id", id) ∷ []) now in
        let awaits = replay-Awaits id now db r event inv found refl refl in
        elim (Option-cases (insert_event calls.insert_up event updated).1) [
          | inl fine ↦
              rw (u, found, replay_body, fine)
                (insert_event-Inv calls.insert_up event updated awaits fine)
          | inr (x, failed) ↦ rw (u, found, replay_body, failed) inv
        ]
  ]
]

-- What holds before a replay and after its body holds after it.
pub replay_dead_atomic_keeps :
    (P : Db → Type 0) (calls : TxCalls) (id : String) (now : Time) (event_id : String) (db : Db)
    → P db
    → P (replay_body calls id now event_id db).0
    → P (replay_dead_atomic calls id now event_id db).0
unfolding replay_dead_atomic
replay_dead_atomic_keeps P calls id now event_id db before after = ground (arith, before, after)

-- A replay keeps the invariant, whatever the server makes of its calls.
pub replay_dead_atomic-Inv :
    (calls : TxCalls) (id : String) (now : Time) (event_id : String) (db : Db)
    → Inv db
    → Inv (replay_dead_atomic calls id now event_id db).0
replay_dead_atomic-Inv calls id now event_id db inv =
    replay_dead_atomic_keeps Inv calls id now event_id db inv
      (replay_body-Inv calls id now event_id db inv)
