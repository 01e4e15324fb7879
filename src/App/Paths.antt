-- ===== src/App/Paths.antt =====
-- The steps of a process in which nothing fails, its probes, and how Run of internal/app/app.go stops.
use rc_pangjiahui.Prelude.{
  Bool, true, ◌≡◌, ◌↔◌, refl, inl, inr, subst, none, some, is_some, List, [], ◌∷◌, ◌++◌, map, arith,
  All, Bool-cases,
}
use rc_pangjiahui.Notification.Model.{Duration}
use rc_pangjiahui.Store.Tables.{Error}
use rc_pangjiahui.Config.{Role, text_of}
use rc_pangjiahui.Health.{required}
use rc_pangjiahui.App.{
  pool, publisher_client, worker_client, server, publisher_loop, worker_loop, scheduler_loop,
  retention_loop, Action, opened, closed, started, context_done, BootCalls, run_configured,
  checks_of, First, parent_done, role_ended, stop_claims, cancel, shutdown_limit, run_roles,
}

-- The log of a process in which nothing fails: it opens what its role needs, starts the loops of the
-- role, and at the end of its context closes the parts without waiting for the loops.
abbrev pub log_of : Role → List Action
log_of Role.api = opened pool ∷ opened server ∷ closed server ∷ closed pool ∷ []
log_of Role.publisher =
    opened pool
    ∷ opened publisher_client
    ∷ opened server
    ∷ started publisher_loop
    ∷ closed server
    ∷ closed publisher_client
    ∷ closed pool
    ∷ []
log_of Role.worker =
    opened pool
    ∷ opened worker_client
    ∷ opened server
    ∷ started worker_loop
    ∷ closed server
    ∷ closed worker_client
    ∷ closed pool
    ∷ []
log_of Role.scheduler =
    opened pool
    ∷ opened server
    ∷ started scheduler_loop
    ∷ started retention_loop
    ∷ closed server
    ∷ closed pool
    ∷ []
log_of Role.all =
    opened pool
    ∷ opened publisher_client
    ∷ opened worker_client
    ∷ opened server
    ∷ started publisher_loop
    ∷ started worker_loop
    ∷ started scheduler_loop
    ∷ started retention_loop
    ∷ closed server
    ∷ closed worker_client
    ∷ closed publisher_client
    ∷ closed pool
    ∷ []

-- Every check that the probes of a role make is set.
pub checks_set :
    (role : Role) (postgres_up publisher_up worker_up : Bool)
    → All
        (λ c. is_some c ≡ true)
        (required (text_of role) (checks_of role postgres_up publisher_up worker_up))
unfolding required
checks_set Role.api p q w = (refl, (refl, tt))
checks_set Role.publisher p q w = (refl, (refl, tt))
checks_set Role.worker p q w = (refl, (refl, (refl, tt)))
checks_set Role.scheduler p q w = (refl, tt)
checks_set Role.all p q w = (refl, (refl, (refl, tt)))

-- Run tells every role to stop its claims before it cancels their context, on every path. It reports
-- no error exactly if no role ended with an error other than the cancellation and all roles end
-- within the limit.
pub run_roles_stops :
    {R : Type 0} (is_canceled : Error → Bool) (roles : List R) (first : First)
    (finished : Duration → Bool) (timeout : Duration)
    → ((run_roles is_canceled roles first finished timeout).0
        ≡ map stop_claims roles ++ cancel ∷ [])
      × (((run_roles is_canceled roles first finished timeout).1 ≡ none) ↔ (
          ((e : Error) → first ≡ role_ended (some e) → is_canceled e ≡ true)
          × (finished (shutdown_limit timeout) ≡ true)))
unfolding run_roles
run_roles_stops is_canceled roles parent_done finished timeout =
    elim (Bool-cases (finished (shutdown_limit timeout))) [
      | inl ended ↦ rw ended (refl, ((λ _. ((λ e q. cc), refl)), λ _. refl))
      | inr late ↦
          rw late (refl, ((λ q. absurd (ground (arith, q))), λ q. absurd (ground (arith, q.1))))
    ]
run_roles_stops is_canceled roles (role_ended none) finished timeout =
    elim (Bool-cases (finished (shutdown_limit timeout))) [
      | inl ended ↦ rw ended (refl, ((λ _. ((λ e q. absurd (ground (arith, q))), refl)), λ _. refl))
      | inr late ↦
          rw late (refl, ((λ q. absurd (ground (arith, q))), λ q. absurd (ground (arith, q.1))))
    ]
run_roles_stops is_canceled roles (role_ended (some x)) finished timeout =
    elim (Bool-cases (is_canceled x)) [
      | inr real ↦ rw real (
        refl,
        ((λ q. absurd (ground (arith, q))), λ q. absurd (ground (arith, q.0 x refl, real))),
      )
      | inl context ↦ rw context (elim (Bool-cases (finished (shutdown_limit timeout))) [
        | inl ended ↦ rw ended (
          refl,
          (
            (λ _. (
              (λ e q.
                  let same : x ≡ e = ground (arith, q) in
                  subst (λ y. is_canceled y ≡ true) same context),
              refl,
            )),
            λ _. refl,
          ),
        )
        | inr late ↦
            rw late (refl, ((λ q. absurd (ground (arith, q))), λ q. absurd (ground (arith, q.1))))
      ])
    ]

-- A process in which nothing fails until its context is done takes exactly the steps of `log_of` for
-- its role, and returns without an error.
pub run_configured_log :
    (calls : BootCalls) (role : Role)
    → calls.pool_up ≡ true
    → calls.ping_up ≡ true
    → calls.load_error ≡ none
    → calls.publisher_error ≡ none
    → calls.worker_error ≡ none
    → calls.jitter_error ≡ none
    → calls.consume_error ≡ none
    → calls.last ≡ context_done
    → run_configured calls role ≡ (log_of role, none)
unfolding run_configured
run_configured_log calls Role.api a b c d e f g h = ground (arith, a, b, c, d, e, f, g, h)
run_configured_log calls Role.publisher a b c d e f g h = ground (arith, a, b, c, d, e, f, g, h)
run_configured_log calls Role.worker a b c d e f g h = ground (arith, a, b, c, d, e, f, g, h)
run_configured_log calls Role.scheduler a b c d e f g h = ground (arith, a, b, c, d, e, f, g, h)
run_configured_log calls Role.all a b c d e f g h = ground (arith, a, b, c, d, e, f, g, h)
