-- ===== src/Store.antt =====
-- internal/store/postgres over the schema of migrations: the tables, and one function for each
-- method of Store. A statement is a function on the tables; a transaction changes them at its
-- commit or not at all, and what it locks is not changed by another until then, so that every
-- history of the service is a sequence of these functions.
pub mod Tables
pub mod Query
pub mod Intake
pub mod Delivery
pub mod Outbox
pub mod Schedule
pub mod Shape
pub mod Transitions
pub mod Ownership
pub mod Invariant
