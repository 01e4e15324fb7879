-- ===== src/Delivery/Exchange.antt =====
-- The HTTP client of internal/delivery/http_sender.go: DialContext and CheckRedirect, and the exchanges
-- that net/http makes with them. What net/url, net, net/textproto, the environment and the servers
-- answer is in the record `Network`; the redirects that net/http follows are modelled, since the
-- sender decides on each of them.
use rc_pangjiahui.Prelude.{
  ℕ, String, Bool, false, not, ◌&&◌, ltb, leb_ℤ, ℤ, pos, pos_part, Option, none, some, List, [],
  ◌∷◌, ◌++◌, length, if◌then◌else◌,
}
use rc_pangjiahui.Notification.Model.{Time, Bytes, Header}
use rc_pangjiahui.Destination.Address.{Ip, validate_resolved_ips}

-- What the sender reads of a URL.
pub record Target : Type 0 where
  pub scheme : String
  pub hostname : String
  pub host : String

pub record Outgoing : Type 0 where
  pub method : String
  pub url : String
  pub header : Header
  pub body : Bytes

pub record Response : Type 0 where
  pub status : ℕ
  pub retry_after : String
  pub body : Bytes

pub data Resolution : Type 0 where
  unresolved : Bytes → Resolution
  resolved : List Ip → Resolution

-- A redirection with 307 or 308 keeps the method and the body; net/http makes of one with 301, 302
-- or 303 a GET without a body.
pub data Redirection : Type 0 where
  keeps_request drops_request : Redirection

pub data HopReply : Type 0 where
  redirect : Redirection → Target → HopReply
  broken : Bytes → HopReply
  response : Response → HopReply

-- One exchange: how the host resolves, and what then comes of the request.
pub record Hop : Type 0 where
  pub resolution : Resolution
  pub reply : HopReply

-- A request that went to an address.
pub record Contact : Type 0 where
  pub target : Target
  pub addresses : List Ip
  pub method : String
  pub body : Bytes

-- What client.Do returns.
pub data Answer : Type 0 where
  redirect_refused destination_refused : Answer
  transport_failed : Bytes → Answer
  responded : Response → Answer

pub record Network : Type 0 where
  pub parse_url : String → Option Target
  pub parse_ip : String → Option Ip
  pub equal_fold : String → String → Bool
  pub canonical : String → String
  pub lookup_env : String → Option String
  pub valid_request : String → String → Bool
  pub parse_time : String → Option Time
  pub as_text : Bytes → String
  pub now : Time
  pub exchange : Outgoing → List Hop

pub record HttpSender : Type 0 where
  pub allow_private : Bool
  pub limit : ℕ

-- NewHTTPSender, as far as it is not net/http.
unfoldable pub new_http_sender : Bool → ℤ → HttpSender
new_http_sender allow_private max_diagnostic_bytes = record {
  allow_private = allow_private;
  limit = if leb_ℤ max_diagnostic_bytes (pos 0) then 1024 else pos_part max_diagnostic_bytes;
}

-- DialContext: the addresses that may be dialled, or the error.
unfoldable pub dial : HttpSender → Resolution → Option Answer
dial sender (unresolved text) = some (transport_failed text)
dial sender (resolved ips) =
    if not sender.allow_private && not (validate_resolved_ips ips)
    then some destination_refused
    else none

abbrev pub addresses_of : Resolution → List Ip
addresses_of (unresolved text) = []
addresses_of (resolved ips) = ips

-- CheckRedirect: whether the redirection is followed.
unfoldable pub check_redirect : (String → String → Bool) → Target → List Target → Bool
check_redirect fold next [] = false
check_redirect fold next (first ∷ via) =
    fold next.scheme first.scheme && fold next.host first.host && ltb (length (first ∷ via)) 3

abbrev pub redirected_method : Redirection → String → String
redirected_method keeps_request method = method
redirected_method drops_request method = "GET"

abbrev pub redirected_body : Redirection → Bytes → Bytes
redirected_body keeps_request body = body
redirected_body drops_request body = []

abbrev pub also {ℓ κ} : {A : Type ℓ} {B : Type κ} → B → A × List B → A × List B
also b (a, bs) = (a, b ∷ bs)

-- client.Do: the exchanges one after the other, with the requests before in `via`.
unfoldable pub follow :
    HttpSender
    → (String → String → Bool)
    → List Target
    → Target
    → String
    → Bytes
    → List Hop
    → Answer × List Contact
follow sender fold via target method body [] = (transport_failed [], [])
follow sender fold via target method body (hop ∷ hops) =
    let contact : Contact = record {
      target = target;
      addresses = addresses_of hop.resolution;
      method = method;
      body = body;
    } in
    elim (dial sender hop.resolution) [
      | some answer ↦ (answer, [])
      | none ↦ elim hop.reply [
        | broken text ↦ (transport_failed text, contact ∷ [])
        | response r ↦ (responded r, contact ∷ [])
        | redirect kind next ↦
            let rest =
              follow sender fold (via ++ target ∷ []) next (redirected_method kind method)
                (redirected_body kind body) hops in
            if check_redirect fold next (via ++ target ∷ [])
            then also contact rest
            else (redirect_refused, contact ∷ [])
      ]
    ]
