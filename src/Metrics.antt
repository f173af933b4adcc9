-- ===== src/Metrics.antt =====
-- internal/metrics: the metrics scraper.
pub mod Scraper
