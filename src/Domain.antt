-- ===== src/Domain.antt =====
-- The package of domain rules, packages/domain/src.
pub mod State
pub mod GpuExecution
pub mod Retention
pub mod Ulid
pub mod Errors
pub mod Tests
