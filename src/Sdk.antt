-- ===== src/Sdk.antt =====
-- The module SDK (sdk): what a module is, the registry of loaded modules, and their life cycle.
pub mod Module
pub mod Registry
pub mod Lifecycle
pub mod Scaffold
mod Tests
