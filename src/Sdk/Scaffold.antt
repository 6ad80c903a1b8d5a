-- ===== src/Sdk/Scaffold.antt =====
-- sdk/scaffold/scaffold.go: the project of a new module. The case of a character, the template
-- engine and the errors of the file system are parameters. The directories in a
-- directory stand at paths of their own.
pub mod Config
pub mod Names
pub mod Generate
pub mod Files
pub mod Check
pub mod Output
pub mod Valid
pub mod Kept
mod Tests
