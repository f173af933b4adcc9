-- ===== src/Queue.antt =====
-- internal/adapters/out/queue: the two implementations of `ports.Queue`.
pub mod Memory
pub mod Redis
