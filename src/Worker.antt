-- ===== src/Worker.antt =====
-- app/worker: the model client (Client); the pipeline of a page, its accesses of the store (Pipeline)
-- and its stages (Process); how long a page may hold out (Limits), what a worker does with a task (Loop),
-- the slots of its dispatch loop (Dispatch), and the recovery of orphans (Reaper).
pub mod Client
pub mod Pipeline
pub mod Process
pub mod Limits
pub mod Loop
pub mod Reaper
pub mod Dispatch
mod Tests
mod Examples
mod Deliveries
