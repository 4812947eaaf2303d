-- ===== src/Projections.antt =====
-- The projections of packages/advanced/src/cqrs_ddd_advanced_core/projections.
pub mod Worker
pub mod Schema
mod Examples
