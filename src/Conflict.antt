-- ===== src/Conflict.antt =====
-- The merge strategies of packages/advanced/src/cqrs_ddd_advanced_core/conflict/resolution.py.
pub mod FieldLevel
pub mod Deep
mod Examples
