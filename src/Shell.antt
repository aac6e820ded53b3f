-- ===== src/Shell.antt =====
-- The shell of kernel/shell.
pub mod Cat
pub mod Hexdump
pub mod History
pub mod Tokens
pub mod Commands
pub mod Process
pub mod Editor
pub mod Older
pub mod Keyboard
pub mod Splash
pub mod Session
