-- ===== src/Node.antt =====
-- node/: a running node.
pub mod Update
pub mod Dial
pub mod Visit
pub mod Discover
pub mod Init
pub mod Serve
pub mod Group
pub mod Stop
pub mod Start
mod Tests
mod Scenarios
