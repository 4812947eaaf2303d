-- ===== src/Sagas.antt =====
-- The sagas of packages/advanced/src/cqrs_ddd_advanced_core/sagas: `SagaState` of state.py, `Saga` of
-- orchestration.py with its steps of Try-Confirm/Cancel, the repository of adapters/memory/sagas.py
-- and `SagaManager` of manager.py.
pub mod State
pub mod Orchestration
pub mod Builder
pub mod Tcc
pub mod Repository
pub mod Manager
pub mod Recovery
pub mod Registry
use cqrs_ddd.Common.{ℕ}
mod Examples
