-- ===== src/Logs.antt =====
-- internal/logs: shipping the containers' output to the platform.
pub mod Batches
pub mod Tailer
pub mod Streams
