-- ===== src/Delivery/Sender/Requests.antt =====
-- What goes out to a supplier, and what is made of its answer.
use rc_pangjiahui.Prelude.{
  ℕ, ◌*◌, ◌%◌, ◌≤◌, ◌<◌, String, Bool, true, false, not, ◌≡◌, ◌≢◌, ◌=ₛ◌, ◌↔◌, refl, inl, inr, some,
  none, ◌∙◌, sym, subst, List, [], ◌∷◌, length, All, arith, take, Bool-cases, any_where, find_where,
  select_where, eq_iff,
}
use rc_pangjiahui.Prelude.RowLaws.{find_where-last}
use rc_pangjiahui.Notification.Model.{Bytes, Header, Outcome, DeliverySnapshot}
use rc_pangjiahui.Notification.State.{classify_result, classify_result-delivered_iff}
use rc_pangjiahui.Destination.Address.{Ip, validate_resolved_ips}
use rc_pangjiahui.Destination.Parse.{set}
use rc_pangjiahui.Text.Utf8.{encode, is_valid_utf8}
use rc_pangjiahui.Delivery.Sender.{
  outgoing, result_of_response, result_of, send, is_refused_url, add_secrets,
}
use rc_pangjiahui.Delivery.Exchange.{
  HttpSender, Network, Target, Outgoing, Response, Hop, Answer, responded, redirect_refused,
  destination_refused, transport_failed, Redirection, redirected_method, redirected_body,
  drops_request, redirect, response, resolved, check_redirect, dial, follow,
}
use rc_pangjiahui.Delivery.Reading.{sanitize}
use rc_pangjiahui.Delivery.Sender.Cases.{send_cases}
use rc_pangjiahui.Delivery.Sender.Diagnostics.{IsTriple, message-malformed, sanitize_cut_lem}

result_of_response-outcome :
    (sender : HttpSender) (net : Network) (r : Response)
    → (result_of_response sender net r).outcome ≡ classify_result r.status false
unfolding result_of_response
result_of_response-outcome sender net r = ground arith

result_of_response-message :
    (sender : HttpSender) (net : Network) (r : Response)
    → (result_of_response sender net r).error_message
      ≡ net.as_text (sanitize (take sender.limit r.body) sender.limit)
unfolding result_of_response
result_of_response-message sender net r = ground arith

-- The answer is a response of the 2xx class.
abbrev pub IsSuccess : Answer → Type 0
IsSuccess (responded r) = (200 ≤ r.status) × (r.status < 300)
IsSuccess _ = ⊥

result_of-delivered :
    (sender : HttpSender) (net : Network) (answer : Answer)
    → ((result_of sender net answer).outcome ≡ Outcome.delivered) ↔ IsSuccess answer
unfolding result_of
result_of-delivered sender net redirect_refused = (λ h. absurd (ground (arith, h)), λ h. absurd h)
result_of-delivered sender net destination_refused =
    (λ h. absurd (ground (arith, h)), λ h. absurd h)
result_of-delivered sender net (transport_failed text) =
    (λ h. absurd (ground (arith, h)), λ h. absurd h)
result_of-delivered sender net (responded r) =
    let iff = classify_result-delivered_iff r.status false in
    let same = result_of_response-outcome sender net r in
    (λ h. (let both = iff.0 (sym same ∙ h) in (both.1, both.2)), λ h. same ∙ iff.1 (refl, h.0, h.1))

-- A call counts as a delivery exactly if a request went out and its last answer is a response of the
-- 2xx class.
pub send_delivered_iff :
    (sender : HttpSender) (net : Network) (snapshot : DeliverySnapshot)
    → ((send sender net snapshot).result.outcome ≡ Outcome.delivered) ↔ (
        (out : Outgoing) × (answer : Answer) × ((send sender net snapshot).request ≡ some out)
        × ((send sender net snapshot).answer ≡ some answer)
        × IsSuccess answer)
send_delivered_iff sender net snapshot =
    send_cases sender net snapshot
      (λ s. (s.result.outcome ≡ Outcome.delivered) ↔ (
        (out : Outgoing) × (answer : Answer) × (s.request ≡ some out)
        × (s.answer ≡ some answer)
        × IsSuccess answer))
      (λ c. (λ h. absurd (ground (arith, h)), λ h. absurd (ground (arith, h.2))))
      λ target header parsed good complete.
        let answer =
          (follow sender net.equal_fold [] target snapshot.method snapshot.body
            (net.exchange (outgoing net snapshot header))).0 in
        let iff = result_of-delivered sender net answer in
        (
          λ h. (outgoing net snapshot header, answer, refl, refl, iff.0 h),
          λ (out, found, went, same, success).
              iff.1 (subst IsSuccess (let e : found ≡ answer = ground (arith, same) in e) success),
        )

set-found :
    (name : String) (value : List String) (header : Header)
    → find_where (λ p. p.0 =ₛ name) (set name value header) ≡ some (name, value)
unfolding any_where select_where
set-found name value header =
    find_where-last (λ p. p.0 =ₛ name) (select_where (λ p. not (p.0 =ₛ name)) header) (name, value)
      (none_left header) (ground (arith, eq_iff name name))
  where
    none_left :
        (entries : Header)
        → any_where (λ p. p.0 =ₛ name) (select_where (λ p. not (p.0 =ₛ name)) entries) ≡ false
    none_left [] = refl
    none_left (p ∷ entries) = elim (Bool-cases (p.0 =ₛ name)) [
      | inl e ↦ rw e (none_left entries)
      | inr e ↦ rw (e, e, none_left entries) refl
    ]

-- The request has the method and the body of the snapshot, and its Idempotency-Key is the key of the
-- snapshot and nothing else, whatever the static and the secret headers are.
pub send_request :
    (sender : HttpSender) (net : Network) (snapshot : DeliverySnapshot) {out : Outgoing}
    → (send sender net snapshot).request ≡ some out
    → (out.method ≡ snapshot.method)
      × (out.body ≡ snapshot.body)
      × (find_where (λ p. p.0 =ₛ net.canonical "Idempotency-Key") out.header
          ≡ some (net.canonical "Idempotency-Key", snapshot.idempotency_key ∷ []))
send_request sender net snapshot {out} =
    let name = net.canonical "Idempotency-Key" in
    let Goal = λ (x : Outgoing).
      (x.method ≡ snapshot.method)
      × (x.body ≡ snapshot.body)
      × (find_where (λ p. p.0 =ₛ name) x.header ≡ some (name, snapshot.idempotency_key ∷ [])) in
    send_cases sender net snapshot (λ s. s.request ≡ some out → Goal out)
      (λ c h. absurd (ground (arith, h)))
      λ target header parsed good complete h.
        let same : outgoing net snapshot header ≡ out = ground (arith, h) in
        subst Goal same (refl, refl, set-found name (snapshot.idempotency_key ∷ []) header)

-- Two exchanges: a redirection within the host, and a response.
abbrev pub moved : List Ip → Redirection → Target → Response → List Hop
moved ips kind next r =
    (record { resolution = resolved ips; reply = redirect kind next })
    ∷ (record { resolution = resolved ips; reply = response r })
    ∷ []

dial-public :
    (sender : HttpSender) (ips : List Ip)
    → validate_resolved_ips ips ≡ true
    → dial sender (resolved ips) ≡ none
unfolding dial
dial-public sender ips public = ground (arith, public)

follow-moved :
    (sender : HttpSender) (fold : String → String → Bool) (target next : Target) (method : String)
    (body : Bytes) (ips : List Ip) (kind : Redirection) (r : Response)
    → validate_resolved_ips ips ≡ true
    → fold next.scheme target.scheme ≡ true
    → fold next.host target.host ≡ true
    → follow sender fold [] target method body (moved ips kind next r) ≡ (
      responded r,
      record { target = target; addresses = ips; method = method; body = body }
          ∷ record {
            target = next;
            addresses = ips;
            method = redirected_method kind method;
            body = redirected_body kind body;
          }
          ∷ [],
    )
unfolding follow check_redirect
follow-moved sender fold target next method body ips kind r public scheme host =
    let free = dial-public sender ips public in rw (free, follow, scheme, host, free, follow) refl

-- A supplier that redirects a notification within its host by 301, 302 or 303, and then answers with
-- a status of the 2xx class, has the notification counted as delivered, although the request that it
-- answers is a GET without the body.
pub send_moved :
    (sender : HttpSender) (net : Network) (snapshot : DeliverySnapshot) (target next : Target)
    (header : Header) (ips : List Ip) (r : Response)
    → net.parse_url snapshot.url ≡ some target
    → is_refused_url sender net target ≡ false
    → net.valid_request snapshot.method snapshot.url ≡ true
    → add_secrets net snapshot.secret_headers snapshot.static_headers ≡ some header
    → net.exchange (outgoing net snapshot header) ≡ moved ips drops_request next r
    → validate_resolved_ips ips ≡ true
    → net.equal_fold next.scheme target.scheme ≡ true
    → net.equal_fold next.host target.host ≡ true
    → 200 ≤ r.status
    → r.status < 300
    → ((send sender net snapshot).result.outcome ≡ Outcome.delivered)
      × ((send sender net snapshot).contacts
          ≡ (record {
            target = target;
            addresses = ips;
            method = snapshot.method;
            body = snapshot.body;
          })
            ∷ (record { target = next; addresses = ips; method = "GET"; body = [] })
            ∷ [])
unfolding send
send_moved sender net snapshot target next header ips r parsed good valid complete met public scheme
      host lo hi =
    let done =
      follow-moved sender net.equal_fold target next snapshot.method snapshot.body ips drops_request
        r public scheme host in
    rw (parsed, send, good, valid, complete, met, done)
      ((result_of-delivered sender net (responded r)).1 (lo, hi), refl)

-- The message that is recorded for an answer whose body is longer than the limit and consists of
-- runes of three bytes is no well-formed UTF-8, unless the limit is a multiple of three.
pub response_message-malformed :
    (sender : HttpSender) (net : Network) (r : Response) (rs : List ℕ)
    → r.body ≡ encode rs
    → All IsTriple rs
    → sender.limit % 3 ≢ 0
    → sender.limit < 3 * length rs
    → (message : Bytes) × ((result_of_response sender net r).error_message ≡ net.as_text message)
      × (is_valid_utf8 message ≡ false)
response_message-malformed sender net r rs text h apart long = (
  sanitize (take sender.limit r.body) sender.limit,
  result_of_response-message sender net r,
  rw (text, sanitize_cut_lem (take sender.limit (encode rs)) sender.limit)
      (message-malformed rs sender.limit h apart long),
)
