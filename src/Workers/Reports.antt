-- ===== src/Workers/Reports.antt =====
-- internal/workers: what the five server handlers tell the platform.
pub mod Kinds
pub mod Verdicts
