-- ===== src/Observability.antt =====
-- internal/observability: the redaction of log attributes and the metrics.
pub mod Logging
pub mod Metrics
