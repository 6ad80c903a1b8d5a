-- ===== src/Engine.antt =====
-- core/event_loop.go and core/tool.go: the registry of tools, the run of one task, and the workers.
pub mod Tools
pub mod Task
pub mod Pool
mod Tests
