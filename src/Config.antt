-- ===== src/Config.antt =====
-- internal/config/config.go: the roles of a process and its configuration.
pub mod Laws
use rc_pangjiahui.Prelude.{
  ℕ, String, Bool, true, false, not, ◌||◌, ◌&&◌, ◌≡◌, refl, Option, none, some, List, [], ◌∷◌, ◌++◌,
  ◌=ₛ◌, if◌then◌else◌, select_where,
}
use rc_pangjiahui.Text.{trim_space, split, cut}

pub data Role : Type 0 where
  api publisher worker scheduler all : Role

abbrev pub text_of : Role → String
text_of Role.api = "api"
text_of Role.publisher = "publisher"
text_of Role.worker = "worker"
text_of Role.scheduler = "scheduler"
text_of Role.all = "all"

unfoldable pub parse_role : String → Option Role
parse_role value =
    if value =ₛ "api"
    then some Role.api
    else if value =ₛ "publisher"
    then some Role.publisher
    else if value =ₛ "worker"
    then some Role.worker
    else if value =ₛ "scheduler"
    then some Role.scheduler
    else if value =ₛ "all"
    then some Role.all
    else none

-- A map from tokens to identities, with each token once.
abbrev pub Tokens : Type 0
Tokens = List (String × String)

-- `result[token] = identity`
abbrev pub assign : String → String → Tokens → Tokens
assign token identity tokens =
    select_where (λ (p : String × String). not (p.0 =ₛ token)) tokens ++ (token, identity) ∷ []

-- The loop of parseTokens.
unfoldable pub parse_entries : List String → Tokens → Tokens
parse_entries [] result = result
parse_entries (entry ∷ entries) result = elim (cut 0x3a (trim_space entry)) [
  | none ↦ parse_entries entries result
  | some (token, identity) ↦
      parse_entries entries
        (if not (token =ₛ "") && not (identity =ₛ "") then assign token identity result else result)
]

unfoldable pub parse_tokens : String → Tokens
unfolding parse_entries
parse_tokens value = parse_entries (split 0x2c value) []

abbrev pub is_empty : Tokens → Bool
is_empty [] = true
is_empty _ = false

-- ShutdownTimeout is always ten seconds.
pub record Runtime : Type 0 where
  pub role : Role
  pub database_url : String
  pub rabbitmq_url : String
  pub destinations_file : String
  pub http_addr : String
  pub metrics_addr : String
  pub caller_tokens : Tokens
  pub admin_tokens : Tokens

-- The roles that need the broker, the destinations, and the tokens.
abbrev pub needs_broker : Role → Bool
needs_broker Role.publisher = true
needs_broker Role.worker = true
needs_broker Role.all = true
needs_broker _ = false

abbrev pub needs_destinations : Role → Bool
needs_destinations Role.api = true
needs_destinations Role.worker = true
needs_destinations Role.all = true
needs_destinations _ = false

abbrev pub needs_tokens : Role → Bool
needs_tokens Role.api = true
needs_tokens Role.all = true
needs_tokens _ = false

-- `value, _ := lookup(key)`, trimmed.
abbrev pub get_env : (String → Option String) → String → String
get_env lookup key = trim_space (elim (lookup key) [ none ↦ "" | some value ↦ value ])

abbrev pub or_default : String → String → String
or_default value default = if value =ₛ "" then default else value

-- No configuration stands for an error.
unfoldable pub load_runtime : Role → (String → Option String) → Option Runtime
load_runtime role lookup =
    let database_url = get_env lookup "DATABASE_URL" in
    let rabbitmq_url = get_env lookup "RABBITMQ_URL" in
    let destinations_file = get_env lookup "DESTINATIONS_FILE" in
    let http_addr = get_env lookup "HTTP_ADDR" in
    let callers = parse_tokens (get_env lookup "CALLER_TOKENS") in
    let admins = parse_tokens (get_env lookup "ADMIN_TOKENS") in
    if database_url =ₛ ""
    then none
    else if needs_broker role && rabbitmq_url =ₛ ""
    then none
    else if needs_destinations role && destinations_file =ₛ ""
    then none
    else if needs_tokens role && (is_empty callers || is_empty admins)
    then none
    else if needs_tokens role
    then some (record {
      role = role;
      database_url = database_url;
      rabbitmq_url = rabbitmq_url;
      destinations_file = destinations_file;
      http_addr = or_default http_addr ":8080";
      metrics_addr = "";
      caller_tokens = callers;
      admin_tokens = admins;
    })
    else some (record {
      role = role;
      database_url = database_url;
      rabbitmq_url = rabbitmq_url;
      destinations_file = destinations_file;
      http_addr = http_addr;
      metrics_addr = or_default (get_env lookup "METRICS_ADDR") ":9090";
      caller_tokens = [];
      admin_tokens = [];
    })
