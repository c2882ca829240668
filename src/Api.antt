-- ===== src/Api.antt =====
-- app/api: admission control (Admission), and the event stream of a job (Stream).
pub mod Admission
pub mod Stream
mod Tests
mod Connections
