-- ===== src/Controller/Safety.antt =====
-- Why concurrent requests create a job at most twice and run it at most once: a thread may make either
-- call only behind a change of the record that it has won, and every change follows from the last one.
pub mod History
pub mod Logic
pub mod Updates
pub mod Observing
pub mod Creating
pub mod Removing
pub mod Requests
pub mod Stored
pub mod Answered
pub mod Threads
pub mod Reachable
