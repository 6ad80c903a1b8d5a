-- ===== src/Scheduler.antt =====
-- The background scheduler (modules/scheduler).
pub mod Cron
pub mod Jobs
