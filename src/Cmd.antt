-- ===== src/Cmd.antt =====
-- cmd/: the commands of the program, and the line they are called with.
pub mod Env
pub mod Create
pub mod Launch
pub mod Cli
pub mod Wait
pub mod Flags
pub mod Execute
pub mod Samples
mod Tests
mod Scenarios
