-- ===== src/Runtime/Service.antt =====
-- `CloudRunRuntimeService` of apps/orchestrator/src/cloud-run-runtime-service.ts, method by method.
pub mod Base
pub mod Bootstrap
pub mod Claim
pub mod Report
