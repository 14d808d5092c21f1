-- ===== src/System.antt =====
-- The program as a whole: what one node publishes or announces, and what reaches another one.
pub mod Genesis
pub mod Peers
pub mod CommandLine
mod Memory
mod Tests
mod Scenarios
