-- ===== src/Security.antt =====
-- core/security: the scanners of prompts, and the validator of signed manifests.
pub mod Guard
pub mod Validator
mod Tests
