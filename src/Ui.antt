-- ===== src/Ui.antt =====
-- ui/: the terminal.
pub mod Runes
pub mod Live
pub mod Tree
pub mod Message
mod Tests
