-- ===== src/Jobs.antt =====
-- Background jobs: packages/advanced/src/cqrs_ddd_advanced_core/background_jobs and the in-memory
-- repository in adapters/memory/background_jobs.py.
pub mod Entity
pub mod Repository
pub mod Service
pub mod Admin
mod Examples
