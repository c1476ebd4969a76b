-- ===== src/Controller/Service.antt =====
-- The methods of `GpuControllerService`, apps/gpu-controller/src/controller-service.ts, as programs.
pub mod Executions
pub mod Reconcile
pub mod Cancel
pub mod Cleanup
pub mod Execute
pub mod Attest
