-- ===== src/Http.antt =====
-- internal/transport/httpapi: the handlers of the service's API. What decodeJSON makes of a body and
-- what the router makes of a path are parts of the request.
pub mod Laws
use rc_pangjiahui.Prelude.{
  ℕ, String, Bool, true, false, not, ◌||◌, ◌&&◌, ◌=ₛ◌, leb, ltb, length, Option, none, some, List,
  [], ◌∷◌, if◌then◌else◌,
}
use rc_pangjiahui.Text.{trim_space, trim_prefix}
use rc_pangjiahui.Notification.Model.{Bytes, Status, Task}
use rc_pangjiahui.Notification.Hash.{utf8}
use rc_pangjiahui.Store.Tables.{
  Error, idempotency_conflict, unknown_destination, task_not_found, not_dead, Fallible, ok, err,
}
use rc_pangjiahui.Config.{Tokens}
use rc_pangjiahui.Query.{View}

-- The body of a response.
pub data Body : Type 0 where
  failure : (code : String) (message : String) → Body
  accepted : (notification_id : String) (status : Status) → Body
  viewed : View → Body
  replayed : (notification_id : String) → Body

pub record Response : Type 0 where
  pub status : ℕ
  pub body : Body

abbrev pub write_error : ℕ → String → String → Response
write_error status code message = record { status = status; body = Body.failure code message }

-- What decodeJSON makes of the body of a request to create a notification.
pub data Decoded : Type 0 where
  too_large invalid : Decoded
  fields : (destination_id : String) (payload : Bytes) → Decoded

-- The loop over the tokens of a map. Texts are equal if their bytes are.
unfoldable pub find_caller : String → Tokens → String → String
find_caller provided [] caller = caller
find_caller provided ((token, identity) ∷ tokens) caller =
    find_caller provided tokens (if token =ₛ provided then identity else caller)

-- The caller that a request with this Authorization header comes from.
unfoldable pub authenticate : Tokens → String → Option String
unfolding find_caller
authenticate tokens authorization =
    let caller = find_caller (trim_prefix "Bearer " authorization) tokens "" in
    if caller =ₛ "" then none else some caller

abbrev pub unauthorized : Response
unauthorized = write_error 401 "unauthorized" "authentication required"

-- The methods of Creator, Querier and Replayer over a state `S`.
pub record Services (S : Type 0) : Type 0 where
  pub create : String → String → String → Bytes → S → S × Fallible (Task × Bool)
  pub get : String → String → S → Fallible View
  pub replay : String → S → S × Option Error

abbrev pub create_error : Error → Response
create_error idempotency_conflict =
    write_error 409 "idempotency_conflict"
      "Idempotency-Key was already used for a different request"
create_error unknown_destination =
    write_error 422 "unknown_destination" "destination_id is not registered"
create_error _ = write_error 500 "internal_error" "request could not be accepted"

abbrev pub create_response : Fallible (Task × Bool) → Response
create_response (ok (task, existing)) = record {
  status = 202;
  body = Body.accepted task.id task.status;
}
create_response (err e) = create_error e

abbrev pub get_response : Fallible View → Response
get_response (ok view) = record { status = 200; body = Body.viewed view }
get_response (err task_not_found) = write_error 404 "not_found" "notification not found"
get_response (err _) = write_error 500 "internal_error" "notification could not be queried"

abbrev pub replay_response : String → Option Error → Response
replay_response id none = record { status = 202; body = Body.replayed id }
replay_response id (some not_dead) =
    write_error 409 "not_dead" "only dead notifications can be replayed"
replay_response id (some _) = write_error 500 "internal_error" "notification could not be replayed"

module _ {S : Type 0} (services : Services S) where
  -- `key` is the Idempotency-Key header.
  unfoldable pub create_handler : String → String → Decoded → S → S × Response
  create_handler caller key decoded s =
      if trim_space key =ₛ "" || ltb 256 (length (utf8 (trim_space key)))
      then (
        s,
        write_error 400 "invalid_idempotency_key"
            "Idempotency-Key is required and must not exceed 256 characters",
      )
      else elim decoded [
        | Decoded.too_large ↦
            (s, write_error 413 "request_too_large" "request body exceeds 256 KiB")
        | Decoded.invalid ↦
            (s, write_error 400 "invalid_json" "request body must be one valid JSON object")
        | Decoded.fields destination_id payload ↦
            if destination_id =ₛ "" || not (ltb 0 (length payload))
            then (s, write_error 400 "invalid_request" "destination_id and payload are required")
            else let (s', result) =
                services.create caller (trim_space key) destination_id payload s in
              (s', create_response result)
      ]

  unfoldable pub query_handler : String → String → S → Response
  query_handler caller id s =
      if id =ₛ ""
      then write_error 400 "invalid_notification_id" "notification id is required"
      else get_response (services.get caller id s)

  unfoldable pub replay_handler : String → S → S × Response
  replay_handler id s = let (s', error) = services.replay id s in (s', replay_response id error)

  -- The three routes of NewRouter, behind their tokens.
  unfoldable pub post_notification : Tokens → String → String → Decoded → S → S × Response
  unfolding create_handler authenticate
  post_notification callers authorization key decoded s =
      elim (authenticate callers authorization) [
        | none ↦ (s, unauthorized)
        | some caller ↦ create_handler caller key decoded s
      ]

  unfoldable pub get_notification : Tokens → String → String → S → Response
  unfolding query_handler authenticate
  get_notification callers authorization id s = elim (authenticate callers authorization) [
    | none ↦ unauthorized
    | some caller ↦ query_handler caller id s
  ]

  unfoldable pub post_replay : Tokens → String → String → S → S × Response
  unfolding replay_handler authenticate
  post_replay admins authorization id s = elim (authenticate admins authorization) [
    | none ↦ (s, unauthorized)
    | some operator ↦ replay_handler id s
  ]
