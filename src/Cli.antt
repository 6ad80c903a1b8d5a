-- ===== src/Cli.antt =====
-- cmd/aether: the commands of the program. The flag package is a parameter: each command gets the
-- flags that Parse has read, or its error. What is printed is left out.
pub mod Commands
pub mod Account
pub mod Session
pub mod Run
mod Tests
