-- ===== src/Controller/Firestore.antt =====
-- The store of apps/gpu-controller/src/firestore-control-store.ts, which keeps in Firestore what
-- apps/gpu-controller/src/control-store.ts keeps in memory.
pub mod Documents
pub mod Database
pub mod Admit
pub mod Claim
pub mod Replace
pub mod Read
pub mod Consistent
pub mod Growth
pub mod Fitting
pub mod Agreement
pub mod Admission
pub mod Claiming
pub mod Replacing
pub mod Reading
pub mod Reachable
pub mod Limits
pub mod Tests
