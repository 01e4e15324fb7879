-- ===== src/Observability/Metrics.antt =====
-- internal/observability/metrics.go: the counters, as numbers for each label. Their names and the
-- handler are calls of the library of Prometheus.
use rc_pangjiahui.Prelude.{ℕ, ◌+◌, String, ◌≡◌, ◌↔◌, ◌=ₛ◌, refl, arith, if◌then◌else◌}
use rc_pangjiahui.Notification.Model.{Outcome, retryable, permanent, ScheduleResult}
use rc_pangjiahui.Delivery.Service.{outcome_label}

abbrev pub Counter : Type 0
Counter = String → ℕ

pub record Metrics : Type 0 where
  pub accepted : Counter
  pub outbox_publish : Counter
  pub delivery_attempts : Counter
  pub dead : ℕ
  pub retry_scheduled : ℕ
  pub recovered_leases : ℕ

abbrev pub increment : String → Counter → Counter
increment label counter other = if other =ₛ label then counter other + 1 else counter other

unfoldable pub observe_intake : String → Metrics → Metrics
observe_intake outcome m = record m { accepted = increment outcome m.accepted }

unfoldable pub observe_outbox_publish : String → Metrics → Metrics
observe_outbox_publish outcome m = record m { outbox_publish = increment outcome m.outbox_publish }

unfoldable pub observe_delivery : String → Metrics → Metrics
observe_delivery outcome m = record m {
  delivery_attempts = increment outcome m.delivery_attempts;
  dead = if outcome =ₛ "dead" then m.dead + 1 else m.dead;
}

unfoldable pub observe_schedule : ScheduleResult → Metrics → Metrics
observe_schedule result m = record m {
  retry_scheduled = m.retry_scheduled + result.scheduled;
  recovered_leases = m.recovered_leases + result.recovered_leases;
  dead = m.dead + result.dead;
}

-- The outcome that the worker reports counts as a death exactly if the recorded result is permanent.
pub observe_delivery-dead_iff :
    (outcome : Outcome) (m : Metrics)
    → ((observe_delivery (outcome_label outcome) m).dead ≡ m.dead + 1) ↔ (outcome ≡ permanent)
unfolding observe_delivery
observe_delivery-dead_iff Outcome.delivered m =
    (λ h. absurd (omega (arith, h)), λ h. absurd (ground (arith, h)))
observe_delivery-dead_iff retryable m =
    (λ h. absurd (omega (arith, h)), λ h. absurd (ground (arith, h)))
observe_delivery-dead_iff permanent m = (λ h. refl, λ h. refl)
