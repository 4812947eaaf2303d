-- ===== src/Messaging.antt =====
-- The mediator, its middlewares and the unit of work of packages/core/src/cqrs_ddd_core.
pub mod Mediator
pub mod Pipeline
pub mod Registry
pub mod Validation
mod Examples
