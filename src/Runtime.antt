-- ===== src/Runtime.antt =====
-- The orchestrator's side of a running execution, apps/orchestrator/src/cloud-run-runtime-service.ts
-- over the store of apps/orchestrator/src/cloud-run-runtime-store.ts: a worker that was started presents
-- itself, claims a session, and reports by events in order.
pub mod Record
pub mod Store
pub mod Sessions
pub mod Guards
pub mod Framing
pub mod Service
pub mod System
pub mod Tests
