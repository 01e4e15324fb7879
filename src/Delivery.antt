-- ===== src/Delivery.antt =====
-- internal/delivery: the worker's handling of a message, and the limit on simultaneous calls.
pub mod Service
pub mod Limiter
pub mod Reading
pub mod Exchange
pub mod Sender
pub mod Worker
