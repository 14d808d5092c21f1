-- ===== src/Util.antt =====
-- util/run.go: external commands.
pub mod Watch
pub mod Run
pub mod Docker
mod Tests
