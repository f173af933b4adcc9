-- ===== src/Workers.antt =====
-- internal/workers: the handlers of the jobs, one module each.
pub mod Reporting
pub mod Provision
pub mod Start
pub mod Stop
pub mod Restart
pub mod Delete
pub mod Mods
pub mod Reports
pub mod Stores
pub mod Permanence
pub mod Readiness
