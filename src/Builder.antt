-- ===== src/Builder.antt =====
-- builder/: `docker build` behind a progress display.
pub mod Scan
pub mod Parser
pub mod Build
pub mod Race
mod Tests
