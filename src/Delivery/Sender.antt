-- ===== src/Delivery/Sender.antt =====
-- Send of internal/delivery/http_sender.go, with parseRetryAfter: the call of a supplier.
pub mod Cases
pub mod Diagnostics
pub mod RetryAfter
pub mod Contacts
pub mod Requests
use rc_pangjiahui.Prelude.{
  ℕ, ◌+◌, ◌-◌, ◌*◌, ◌%◌, String, Bool, true, false, not, ◌||◌, ◌&&◌, ◌==◌, ◌=ₛ◌, ltb, leb, leb_ℤ,
  ltb_ℤ, ◌+ℤ◌, ℤ, pos, negsuc, pos_part, Option, none, some, List, [], ◌∷◌, ◌++◌, map, length, take,
  if◌then◌else◌,
}
use Prim.Native.Char.{code}
use rc_pangjiahui.Text.{trim_space}
use rc_pangjiahui.Text.Utf8.{runes, encode}
use rc_pangjiahui.Notification.Model.{
  Time, Bytes, Header, Outcome, permanent, retryable, DeliverySnapshot,
}
use rc_pangjiahui.Notification.State.{classify_result}
use rc_pangjiahui.Destination.Address.{Ip, validate_resolved_ips}
use rc_pangjiahui.Destination.Parse.{set}
use rc_pangjiahui.Delivery.Service.{SendResult}
use rc_pangjiahui.Delivery.Reading.{atoi, sanitize, seconds_duration}
use rc_pangjiahui.Delivery.Exchange.{
  Target, Outgoing, Response, Contact, Answer, redirect_refused, destination_refused,
  transport_failed, responded, Network, HttpSender, follow,
}

abbrev pub retry_date : Network → String → Time → Option Time
retry_date net value now = elim (net.parse_time value) [
  | none ↦ none
  | some at ↦ if ltb_ℤ now at then some at else none
]

unfoldable pub parse_retry_after : Network → String → Time → Option Time
parse_retry_after net value now = elim (atoi (trim_space value)) [
  | some (pos n) ↦ some (now +ℤ seconds_duration n)
  | _ ↦ retry_date net value now
]

-- The secrets of the environment, under their header names.
unfoldable pub add_secrets : Network → List (String × String) → Header → Option Header
add_secrets net [] header = some header
add_secrets net ((name, variable) ∷ secrets) header = elim (net.lookup_env variable) [
  | none ↦ none
  | some value ↦ add_secrets net secrets (set (net.canonical name) (value ∷ []) header)
]

-- What Send returns, with the request that it made and the contacts and the answer that it had.
pub record Sent : Type 0 where
  pub result : SendResult
  pub request : Option Outgoing
  pub contacts : List Contact
  pub answer : Option Answer

abbrev pub failed_with : Outcome → String → String → SendResult
failed_with outcome error_code error_message = record {
  outcome = outcome;
  http_status = 0;
  error_code = error_code;
  error_message = error_message;
  retry_after = none;
}

abbrev pub unsent : String → Sent
unsent error_code = record {
  result = failed_with permanent error_code "";
  request = none;
  contacts = [];
  answer = none;
}

-- The result for a response of the supplier.
unfoldable pub result_of_response : HttpSender → Network → Response → SendResult
unfolding sanitize
result_of_response sender net r =
    let outcome = classify_result r.status false in
    let message = net.as_text (sanitize (take sender.limit r.body) sender.limit) in
    let result : SendResult = record {
      outcome = outcome;
      http_status = r.status;
      error_code = if leb 500 r.status then "http_5xx" else "http_4xx";
      error_message = message;
      retry_after =
          if r.status == 429 || r.status == 503
          then parse_retry_after net r.retry_after net.now
          else none;
    } in
    elim outcome [
      | Outcome.delivered ↦ record result { error_code = ""; retry_after = none }
      | _ ↦ result
    ]

unfoldable pub result_of : HttpSender → Network → Answer → SendResult
result_of sender net redirect_refused = failed_with permanent "redirect_not_allowed" ""
result_of sender net destination_refused = failed_with permanent "destination_not_allowed" ""
result_of sender net (transport_failed text) =
    failed_with retryable "transport_error" (net.as_text (sanitize text sender.limit))
result_of sender net (responded r) = result_of_response sender net r

-- A host that is the text of an address which the sender may not call.
abbrev pub is_refused_literal : HttpSender → Network → String → Bool
is_refused_literal sender net hostname = elim (net.parse_ip hostname) [
  | none ↦ false
  | some ip ↦ not sender.allow_private && not (validate_resolved_ips (ip ∷ []))
]

abbrev pub is_refused_url : HttpSender → Network → Target → Bool
is_refused_url sender net target =
    target.hostname =ₛ ""
    || (not (target.scheme =ₛ "https") && not sender.allow_private)
    || is_refused_literal sender net target.hostname

-- The request with its headers, from the snapshot and the environment.
abbrev pub outgoing : Network → DeliverySnapshot → Header → Outgoing
outgoing net snapshot header = record {
  method = snapshot.method;
  url = snapshot.url;
  header = set (net.canonical "Idempotency-Key") (snapshot.idempotency_key ∷ []) header;
  body = snapshot.body;
}

abbrev pub exchanged : HttpSender → Network → Target → Outgoing → Sent
exchanged sender net target request =
    let (answer, contacts) =
      follow sender net.equal_fold [] target request.method request.body (net.exchange request) in
    record {
      result = result_of sender net answer;
      request = some request;
      contacts = contacts;
      answer = some answer;
    }

unfoldable pub send : HttpSender → Network → DeliverySnapshot → Sent
unfolding follow result_of add_secrets
send sender net snapshot = elim (net.parse_url snapshot.url) [
  | none ↦ unsent "destination_not_allowed"
  | some target ↦
      if is_refused_url sender net target
      then unsent "destination_not_allowed"
      else if not (net.valid_request snapshot.method snapshot.url)
      then unsent "invalid_request"
      else elim (add_secrets net snapshot.secret_headers snapshot.static_headers) [
        | none ↦ unsent "missing_secret"
        | some header ↦ exchanged sender net target (outgoing net snapshot header)
      ]
]
