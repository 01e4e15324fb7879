-- ===== src/Http/Laws.antt =====
-- What the API lets through, and what its answers say of the tables.
use rc_pangjiahui.Prelude.{
  String, Bool, true, not, ◌||◌, ◌&&◌, ◌≡◌, ◌≢◌, ◌⊎◌, refl, sym, subst, ap, ◌∙◌, none, some, [],
  ◌∷◌, ◌=ₛ◌, eq_iff, arith, any_where, find_where, Bool-cases, Option-cases, inl, inr,
  if◌then◌else◌, ltb, length,
}
use rc_pangjiahui.Text.{trim_space, trim_prefix}
use rc_pangjiahui.Notification.Model.{Time, Bytes, Task}
use rc_pangjiahui.Notification.Hash.{utf8}
use rc_pangjiahui.Store.Tables.{TaskRow, Db, Fallible, ok, err, has_key}
use rc_pangjiahui.Store.Query.{TxCalls}
use rc_pangjiahui.Store.Intake.{CreateCalls}
use rc_pangjiahui.Config.{Tokens}
use rc_pangjiahui.Intake.{Request, Surroundings, create}
use rc_pangjiahui.Intake.Postgres
use rc_pangjiahui.Intake.Answers.{create_stored}
use rc_pangjiahui.Query.{get, replay}
use rc_pangjiahui.Query.Laws
use rc_pangjiahui.Http.{
  Body, Decoded, Services, find_caller, authenticate, unauthorized, create_response, create_handler,
  post_notification,
}

-- An entry of the tokens for a token and an identity.
abbrev pub is_entry : String → String → String × String → Bool
is_entry token identity p = p.0 =ₛ token && p.1 =ₛ identity

find_caller-cases :
    (provided : String) (tokens : Tokens) (caller : String)
    → (find_caller provided tokens caller ≡ caller)
      ⊎ (any_where (is_entry provided (find_caller provided tokens caller)) tokens ≡ true)
unfolding find_caller any_where
find_caller-cases provided [] caller = inl refl
find_caller-cases provided ((token, identity) ∷ tokens) caller =
    let next = if token =ₛ provided then identity else caller in
    elim (find_caller-cases provided tokens next) [
      | inr there ↦ inr (ground (arith, there))
      | inl same ↦ elim (Bool-cases (token =ₛ provided)) [
        | inl here ↦ inr (here_lem here same)
        | inr apart ↦ inl (same ∙ rw apart refl)
      ]
    ]
  where
    here_lem :
        token =ₛ provided ≡ true
        → find_caller provided tokens (if token =ₛ provided then identity else caller)
          ≡ (if token =ₛ provided then identity else caller)
        → any_where
            (is_entry provided
              (find_caller provided tokens (if token =ₛ provided then identity else caller)))
            ((token, identity) ∷ tokens)
          ≡ true
    here_lem here same = rw (same, here) (ground (arith, here, eq_iff identity identity))

named_lem :
    (found caller : String)
    → (if found =ₛ "" then none else some found) ≡ some caller
    → (found ≡ caller) × (caller ≢ "")
named_lem found caller h = elim (Bool-cases (found =ₛ "")) [
  | inl empty ↦ absurd (ground (arith, h, empty))
  | inr full ↦
      let same : found ≡ caller = ground (arith, h, full) in
      (same, λ e. ground (arith, full, eq_iff found "", same ∙ e))
]

-- A request is let through only as the caller of an entry whose token it carries, and never without
-- a name.
pub authenticate_known :
    (tokens : Tokens) (authorization caller : String)
    → authenticate tokens authorization ≡ some caller
    → (caller ≢ "")
      × (any_where (is_entry (trim_prefix "Bearer " authorization) caller) tokens ≡ true)
unfolding authenticate
authenticate_known tokens authorization caller h =
    let provided = trim_prefix "Bearer " authorization in
    let (same, named) = named_lem (find_caller provided tokens "") caller h in
    (
      named,
      elim (find_caller-cases provided tokens "") [
        | inl unknown ↦ absurd (named (sym same ∙ unknown))
        | inr there ↦ subst (λ c. any_where (is_entry provided c) tokens ≡ true) same there
      ],
    )

-- The service over the tables, with what each call meets.
abbrev pub services : Surroundings → CreateCalls → Bool → TxCalls → Time → String → Services Db
services env calls up tx now event_id = record {
  create = λ caller key destination payload db.
      let (db', created) =
        create (Postgres.repository calls) env
          (record {
            caller = caller;
            idempotency_key = key;
            destination_id = destination;
            payload = payload;
          })
          db in
      (db', created.result);
  get = λ caller id db. get (Laws.repository up tx) caller id db;
  replay = λ id db. replay (Laws.repository up tx) now event_id id db;
}

accepted_lem :
    (f : Fallible (Task × Bool))
    → (create_response f).status ≡ 202
    → (task : Task) × (known : Bool) × (f ≡ ok (task, known))
      × ((create_response f).body ≡ Body.accepted task.id task.status)
accepted_lem (ok (task, known)) h = (task, known, refl, refl)
accepted_lem (err e) h = absurd (ground (arith, h))

module _ (env : Surroundings) (calls : CreateCalls) (up : Bool) (tx : TxCalls) (now : Time)
    (event_id : String) where
  -- The service of the section.
  abbrev api : Services Db
  api = services env calls up tx now event_id

  create_handler-fields :
      (caller key destination : String) (payload : Bytes) (db : Db)
      → (create_handler api caller key (Decoded.fields destination payload) db).1.status ≡ 202
      → (create_handler api caller key (Decoded.fields destination payload) db ≡ (
        (api.create caller (trim_space key) destination payload db).0,
        create_response (api.create caller (trim_space key) destination payload db).1,
      ))
  unfolding create_handler
  create_handler-fields caller key destination payload db h =
      elim (Bool-cases (trim_space key =ₛ "" || ltb 256 (length (utf8 (trim_space key))))) [
        | inl bad ↦ absurd (ground (arith, h, bad))
        | inr fine ↦ elim (Bool-cases (destination =ₛ "" || not (ltb 0 (length payload)))) [
          | inl bad ↦ absurd (ground (arith, h, fine, bad))
          | inr full ↦ ground (arith, fine, full)
        ]
      ]

  create_handler-decoded :
      (caller key : String) (decoded : Decoded) (db : Db)
      → (create_handler api caller key decoded db).1.status ≡ 202
      → (destination : String) × (payload : Bytes) × (decoded ≡ Decoded.fields destination payload)
  unfolding create_handler
  create_handler-decoded caller key Decoded.too_large db h = absurd (ground (arith, h))
  create_handler-decoded caller key Decoded.invalid db h = absurd (ground (arith, h))
  create_handler-decoded caller key (Decoded.fields d p) db h = (d, p, refl)

  create_handler_stored :
      (caller key : String) (decoded : Decoded) (db : Db)
      → (create_handler api caller key decoded db).1.status ≡ 202
      → (r : TaskRow) × (find_where
            (has_key caller (trim_space key))
            (create_handler api caller key decoded db).0.tasks
          ≡ some r)
        × ((create_handler api caller key decoded db).1.body ≡ Body.accepted r.id r.status)
  create_handler_stored caller key decoded db h =
      let (destination, payload, same) = create_handler-decoded caller key decoded db h in
      let h' = subst (λ d. (create_handler api caller key d db).1.status ≡ 202) same h in
      let called = create_handler-fields caller key destination payload db h' in
      let request : Request = record {
        caller = caller;
        idempotency_key = trim_space key;
        destination_id = destination;
        payload = payload;
      } in
      let (task, known, created, body) =
        accepted_lem (api.create caller (trim_space key) destination payload db).1
          (sym (ap (λ x. x.1.status) called) ∙ h') in
      let (r, there, same_id, same_status) =
        create_stored calls env request db task known created in
      rw same (
        r,
        ap (λ x. find_where (has_key caller (trim_space key)) x.0.tasks) called ∙ there,
        ap (λ x. x.1.body) called
            ∙ body
            ∙ ap (λ i. Body.accepted i task.status) same_id
            ∙ ap (Body.accepted r.id) same_status,
      )

  post-known :
      (tokens : Tokens) (authorization key caller : String) (decoded : Decoded) (db : Db)
      → authenticate tokens authorization ≡ some caller
      → post_notification api tokens authorization key decoded db
        ≡ create_handler api caller key decoded db
  unfolding post_notification
  post-known tokens authorization key caller decoded db h = rw (h, post_notification) refl

  post-unknown :
      (tokens : Tokens) (authorization key : String) (decoded : Decoded) (db : Db)
      → authenticate tokens authorization ≡ none
      → post_notification api tokens authorization key decoded db ≡ (db, unauthorized)
  unfolding post_notification
  post-unknown tokens authorization key decoded db h = rw (h, post_notification) refl

-- A request that is answered with 202 came from the caller of a known token, and the tables hold a
-- task of that caller under the key of the request, with the identifier and the status that the
-- answer gives.
pub post_notification_stored :
    (env : Surroundings) (calls : CreateCalls) (up : Bool) (tx : TxCalls) (now : Time)
    (event_id : String) (tokens : Tokens) (authorization key : String) (decoded : Decoded) (db : Db)
    → (post_notification
        (services env calls up tx now event_id)
        tokens
        authorization
        key
        decoded
        db).1.status
      ≡ 202
    → (caller : String) × (r : TaskRow) × (any_where
          (is_entry (trim_prefix "Bearer " authorization) caller)
          tokens
        ≡ true)
      × (find_where
            (has_key caller (trim_space key))
            (post_notification
              (services env calls up tx now event_id)
              tokens
              authorization
              key
              decoded
              db).0.tasks
          ≡ some r)
      × ((post_notification
            (services env calls up tx now event_id)
            tokens
            authorization
            key
            decoded
            db).1.body
          ≡ Body.accepted r.id r.status)
post_notification_stored env calls up tx now event_id tokens authorization key decoded db h =
    elim (Option-cases (authenticate tokens authorization)) [
      | inl unknown ↦
          let denied =
            post-unknown env calls up tx now event_id tokens authorization key decoded db unknown in
          absurd (ground (arith, sym (ap (λ x. x.1.status) denied) ∙ h))
      | inr (caller, known) ↦
          let called =
            post-known env calls up tx now event_id tokens authorization key caller decoded db
              known in
          let (r, there, body) =
            create_handler_stored env calls up tx now event_id caller key decoded db
              (sym (ap (λ x. x.1.status) called) ∙ h) in
          (
            caller,
            r,
            (authenticate_known tokens authorization caller known).1,
            ap (λ x. find_where (has_key caller (trim_space key)) x.0.tasks) called ∙ there,
            ap (λ x. x.1.body) called ∙ body,
          )
    ]
