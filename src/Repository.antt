-- ===== src/Repository.antt =====
-- internal/adapters/out/repository: the stores of server records.
pub mod Memory
pub mod Sqlite
