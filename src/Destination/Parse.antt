-- ===== src/Destination/Parse.antt =====
-- parseDestination of internal/destination/validate.go, and the loop of Load in config.go. What
-- net/url, net, time, net/textproto and the environment make of a text is a parameter.
pub mod Laws
use Prim.Native.Char.{Char, code}
use rc_pangjiahui.Prelude.{
  ℕ, ◌*◌, String, Bool, true, false, not, ◌||◌, ◌&&◌, ◌==◌, ◌=ₛ◌, leb, Option, none, some, is_some,
  List, [], ◌∷◌, ◌++◌, ℤ, pos, pos_part, leb_ℤ, ltb_ℤ, if◌then◌else◌, select_where, any_where,
}
use rc_pangjiahui.Text.{trim_space}
use rc_pangjiahui.Notification.Model.{Duration, RetryPolicy, Header}
use rc_pangjiahui.Destination.{Destination, Registry, named}
use rc_pangjiahui.Destination.Address.{Ip, disallowed_ip}

pub record RawDestination : Type 0 where
  pub id : String
  pub method : String
  pub url : String
  pub static_headers : List (String × String)
  pub secret_headers : List (String × String)
  pub timeout : String
  pub max_attempts : ℤ
  pub lifetime : String
  pub retry_delays : List String
  pub concurrency_limit : ℤ

-- What the code reads of a parsed URL; `text` is its String().
pub record Url : Type 0 where
  pub text : String
  pub scheme : String
  pub hostname : String
  pub has_user : Bool
  pub fragment : String

pub record Parsers : Type 0 where
  pub parse_url : String → Option Url
  pub parse_ip : String → Option Ip
  pub parse_duration : String → Option Duration
  pub to_upper : String → String
  pub equal_fold : String → String → Bool
  pub canonical : String → String
  pub lookup_env : String → Option String

-- strings.ContainsAny(value, "\r\n")
unfoldable pub has_newline : String → Bool
has_newline String.[] = false
has_newline (String.◌∷◌ c s) = code c == 0x0d || code c == 0x0a || has_newline s

-- Header.Set, and an assignment to a map, under a canonical name.
abbrev pub set {ℓ} : {A : Type ℓ} → String → A → List (String × A) → List (String × A)
set name value entries = select_where (λ p. not (p.0 =ₛ name)) entries ++ (name, value) ∷ []

-- The number of nanoseconds of a second.
abbrev pub seconds : ℕ → Duration
seconds n = pos (n * 1000000000)

abbrev pub is_method : String → Bool
is_method m = m =ₛ "POST" || m =ₛ "PUT" || m =ₛ "PATCH"

-- A host that is the text of a disallowed address.
abbrev pub is_disallowed_host : Parsers → String → Bool
is_disallowed_host parsers host = elim (parsers.parse_ip host) [
  | none ↦ false
  | some ip ↦ disallowed_ip ip
]

abbrev pub is_allowed_url : Parsers → Url → Bool
is_allowed_url parsers url =
    not (url.hostname =ₛ "")
    && url.scheme =ₛ "https"
    && not url.has_user
    && url.fragment =ₛ ""
    && not (is_disallowed_host parsers url.hostname)

-- A duration above zero and at most the limit.
abbrev pub parse_bounded : Parsers → Duration → String → Option Duration
parse_bounded parsers limit value = elim (parsers.parse_duration value) [
  | none ↦ none
  | some d ↦ if ltb_ℤ (pos 0) d && leb_ℤ d limit then some d else none
]

unfoldable pub parse_delays : Parsers → Duration → List String → Option (List Duration)
parse_delays parsers lifetime [] = some []
parse_delays parsers lifetime (value ∷ values) =
    let rest = parse_delays parsers lifetime values in
    elim (parse_bounded parsers lifetime value) [
      | none ↦ none
      | some delay ↦ elim rest [ none ↦ none | some delays ↦ some (delay ∷ delays) ]
    ]

unfoldable pub parse_static : Parsers → List (String × String) → Header → Option Header
parse_static parsers [] headers = some headers
parse_static parsers ((name, value) ∷ entries) headers =
    let rest = parse_static parsers entries (set (parsers.canonical name) (value ∷ []) headers) in
    if parsers.equal_fold name "Authorization" || has_newline value then none else rest

unfoldable pub parse_secrets :
    Parsers → List (String × String) → List (String × String) → Option (List (String × String))
parse_secrets parsers [] headers = some headers
parse_secrets parsers ((name, variable) ∷ entries) headers =
    let rest = parse_secrets parsers entries (set (parsers.canonical name) variable headers) in
    if variable =ₛ "" || has_newline name
    then none
    else if is_some (parsers.lookup_env variable)
    then rest
    else none

abbrev pub in_range : ℕ → ℕ → ℤ → Bool
in_range low high n = leb_ℤ (pos low) n && leb_ℤ n (pos high)

abbrev pub is_nil {ℓ} : {A : Type ℓ} → List A → Bool
is_nil [] = true
is_nil _ = false

-- `if c { return error }`, and a call that may return an error, before what follows.
unfoldable pub refuse_if {ℓ} : {A : Type ℓ} → Bool → Option A → Option A
refuse_if c rest = if c then none else rest

unfoldable pub and_then {ℓ κ} : {A : Type ℓ} {B : Type κ} → Option A → (A → Option B) → Option B
and_then none f = none
and_then (some a) f = f a

-- No destination stands for an error.
unfoldable pub parse_destination : Parsers → RawDestination → Option Destination
parse_destination parsers raw = refuse_if (trim_space raw.id =ₛ "") (
    refuse_if (not (is_method (parsers.to_upper raw.method))) (
      and_then (parsers.parse_url raw.url) (λ url. refuse_if (not (is_allowed_url parsers url)) (
        and_then (parse_bounded parsers (seconds 30) raw.timeout) (λ timeout.
          and_then (parse_bounded parsers (seconds 604800) raw.lifetime) (λ lifetime.
            refuse_if
              (not (in_range 1 32 raw.max_attempts && in_range 1 1000 raw.concurrency_limit))
              (and_then (parse_delays parsers lifetime raw.retry_delays) (λ delays.
                refuse_if (ltb_ℤ (pos 1) raw.max_attempts && is_nil delays) (
                  and_then (parse_static parsers raw.static_headers []) (λ headers.
                    and_then (parse_secrets parsers raw.secret_headers []) (λ secrets.
                      some (record {
                        id = raw.id;
                        method = parsers.to_upper raw.method;
                        url = some url.text;
                        static_headers = headers;
                        secret_headers = secrets;
                        timeout = timeout;
                        retry = record {
                          max_attempts = pos_part raw.max_attempts;
                          lifetime = lifetime;
                          delays = delays;
                        };
                        concurrency_limit = pos_part raw.concurrency_limit;
                      }))))))))))))

-- The loop of Load over the destinations of the file.
unfoldable pub load_all : Parsers → List RawDestination → Registry → Option Registry
load_all parsers [] items = some items
load_all parsers (raw ∷ raws) items =
    if any_where (named raw.id) items then none else elim (parse_destination parsers raw) [
      | none ↦ none
      | some d ↦ load_all parsers raws (items ++ d ∷ [])
    ]

-- Load, from what the YAML decoder makes of the file.
unfoldable pub load : Parsers → List RawDestination → Option Registry
unfolding load_all
load parsers raws = if is_nil raws then none else load_all parsers raws []
