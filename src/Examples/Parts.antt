-- ===== src/Examples/Parts.antt =====
-- Runs of the retry policy, the configuration and the registry of destinations.
use rc_pangjiahui.Prelude.{
  ◌<◌, ◌+ℤ◌, ◌≤ℤ◌, String, false, ◌≡◌, ◌≢◌, ◌⊎◌, refl, Option, none, some, [], ◌∷◌, pos, All, arith,
  any_where,
}
use rc_pangjiahui.Text.{trim_left, trim_right}
use rc_pangjiahui.Notification.Retry.{next_attempt, by_delay, configured_delay}
use rc_pangjiahui.Notification.Retry.Bounds.{next_attempt_window}
use rc_pangjiahui.Destination.{Registry}
use rc_pangjiahui.Destination.Parse.{
  RawDestination, Parsers, parse_destination, load, load_all, parse_delays, parse_static,
  parse_secrets, refuse_if, and_then,
}
use rc_pangjiahui.Destination.Parse.Laws.{IsValid, same_destination, load-IsValid}
use rc_pangjiahui.Prelude.DistinctRows.{DistinctBy}
use rc_pangjiahui.Config.{
  Role, load_runtime, Runtime, needs_broker, needs_destinations, needs_tokens,
}
use rc_pangjiahui.Config.Laws.{IsEntry, load_runtime_complete}
use rc_pangjiahui.Examples.{policy, crm}

next_attempt_window_example :
    (0 < 1)
    × (1 < policy.max_attempts)
    × (pos 1000 ≤ℤ pos 5000001000)
    × (pos 5000001000 ≤ℤ pos 1000 +ℤ policy.lifetime)
unfolding next_attempt by_delay configured_delay ◌+ℤ◌
next_attempt_window_example =
    next_attempt_window policy 1 none (pos 1000) none {t = pos 5000001000} (omega arith) refl

-- A process that publishes, with its environment.
abbrev environment : String → Option String
environment key = some "x"

abbrev publisher : Runtime
publisher = record {
  role = Role.publisher;
  database_url = "x";
  rabbitmq_url = "x";
  destinations_file = "x";
  http_addr = "x";
  metrics_addr = "x";
  caller_tokens = [];
  admin_tokens = [];
}

load_runtime_complete_example :
    (publisher.role ≡ Role.publisher)
    × (publisher.database_url ≢ "")
    × ((needs_broker Role.publisher ≡ false) ⊎ (publisher.rabbitmq_url ≢ ""))
    × ((needs_destinations Role.publisher ≡ false) ⊎ (publisher.destinations_file ≢ ""))
    × (((publisher.http_addr ≢ "") × (publisher.caller_tokens ≢ []) × (publisher.admin_tokens ≢ []))
        ⊎ ((needs_tokens Role.publisher ≡ false) × (publisher.metrics_addr ≢ "")))
    × All IsEntry publisher.caller_tokens
    × All IsEntry publisher.admin_tokens
unfolding load_runtime trim_left trim_right
load_runtime_complete_example = load_runtime_complete Role.publisher environment publisher refl

abbrev parsers : Parsers
parsers = record {
  parse_url = λ s. some (record {
    text = s;
    scheme = "https";
    hostname = "crm.example";
    has_user = false;
    fragment = "";
  });
  parse_ip = λ s. none;
  parse_duration = λ s. some (pos 5000000000);
  to_upper = λ s. s;
  equal_fold = λ a b. false;
  canonical = λ s. s;
  lookup_env = λ s. some s;
}

abbrev raw : RawDestination
raw = record {
  id = "crm";
  method = "POST";
  url = "https://crm.example/hook";
  static_headers = [];
  secret_headers = [];
  timeout = "5s";
  max_attempts = pos 3;
  lifetime = "5s";
  retry_delays = "5s" ∷ [];
  concurrency_limit = pos 2;
}

abbrev registry : Registry
registry =
    record crm {
      retry = record { max_attempts = 3; lifetime = pos 5000000000; delays = pos 5000000000 ∷ [] };
    }
    ∷ []

load-IsValid_example : All (IsValid parsers) registry × DistinctBy same_destination registry
unfolding any_where load load_all parse_destination parse_delays parse_static parse_secrets
    refuse_if and_then trim_left trim_right
load-IsValid_example = load-IsValid parsers (raw ∷ []) registry refl
