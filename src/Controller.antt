-- ===== src/Controller.antt =====
-- The GPU controller, apps/gpu-controller/src: it admits executions within a budget, and creates, runs,
-- observes, cancels and removes a Cloud Run job for each.
pub mod Contracts
pub mod Provider
pub mod Record
pub mod Store
pub mod Program
pub mod Service
pub mod System
pub mod Safety
pub mod Guarantees
pub mod Schedule
pub mod Stored
pub mod Persistence
pub mod Budget
pub mod Firestore
pub mod Tests
