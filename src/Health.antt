-- ===== src/Health.antt =====
-- internal/observability/health.go: the probes of a process.
use rc_pangjiahui.Prelude.{
  ℕ, String, Bool, true, false, not, ◌||◌, ◌&&◌, ◌≡◌, ◌↔◌, ◌⊎◌, ◌=ₛ◌, Option, none, some, List, [],
  ◌∷◌, ◌++◌, arith, any_where, if◌then◌else◌,
}
use rc_pangjiahui.Config.{Role, text_of, needs_broker, needs_destinations}

-- A check that is not set, or whether it succeeds.
abbrev pub Check : Type 0
Check = Option Bool

pub record Checks : Type 0 where
  pub postgres : Check
  pub rabbitmq : Check
  pub destinations : Check

-- `check == nil || check() != nil`
abbrev pub fails : Check → Bool
fails none = true
fails (some up) = not up

unfoldable pub required : String → Checks → List Check
required role checks =
    (checks.postgres ∷ [])
    ++ (if role =ₛ "publisher" || role =ₛ "worker" || role =ₛ "all"
        then checks.rabbitmq ∷ []
        else [])
    ++ (if role =ₛ "api" || role =ₛ "worker" || role =ₛ "all" then checks.destinations ∷ [] else [])

-- The status and the text of the answer, for the path of a request.
unfoldable pub serve_http : String → Checks → String → ℕ × String
unfolding required
serve_http role checks path =
    if path =ₛ "/livez"
    then (200, "ok")
    else if not (path =ₛ "/readyz")
    then (404, "404 page not found")
    else if any_where fails (required role checks)
    then (503, "not_ready")
    else (200, "ready")

ready_lem :
    (r : Role) (checks : Checks)
    → any_where fails (required (text_of r) checks) ≡ (
        fails checks.postgres
        || (needs_broker r && fails checks.rabbitmq)
        || (needs_destinations r && fails checks.destinations))
unfolding required any_where
ready_lem Role.api checks = ground arith
ready_lem Role.publisher checks = ground arith
ready_lem Role.worker checks = ground arith
ready_lem Role.scheduler checks = ground arith
ready_lem Role.all checks = ground arith

-- A process of a role says that it is ready exactly if its database answers, the broker does where
-- the configuration of the role needs it, and the destinations are there where it needs them.
pub serve_http-ready :
    (r : Role) (checks : Checks)
    → (serve_http (text_of r) checks "/readyz" ≡ (200, "ready")) ↔ (
        (checks.postgres ≡ some true)
        × ((needs_broker r ≡ false) ⊎ (checks.rabbitmq ≡ some true))
        × ((needs_destinations r ≡ false) ⊎ (checks.destinations ≡ some true)))
unfolding serve_http
serve_http-ready r checks = (
  λ h. (
    ground (arith, h, ready_lem r checks),
    ground (arith, h, ready_lem r checks),
    ground (arith, h, ready_lem r checks),
  ),
  λ h. ground (arith, h.0, h.1, h.2, ready_lem r checks),
)
