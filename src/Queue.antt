-- ===== src/Queue.antt =====
-- app/queue: the page state machine (State), its hashes in Redis (Hashes) and the store (Store); the
-- tasks (Tasks), the commands of a stream (Broker), and the task queue on them (Streams, Consumer); and
-- the result stream of a job (Results).
pub mod State
pub mod Hashes
pub mod Store
pub mod Tasks
pub mod Broker
pub mod Streams
pub mod Consumer
pub mod Results
mod Tests
mod Examples
mod Publications
