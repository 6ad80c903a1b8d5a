-- ===== src/Audit.antt =====
-- The audit trail (core/audit).
pub mod Event
pub mod Chain
pub mod Appender
