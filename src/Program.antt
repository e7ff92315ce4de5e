-- ===== src/Program.antt =====
-- crates/lspgraph-tui/src/main.rs: the program around the interface and the worker.
pub mod System
pub mod Files
pub mod Sources
pub mod Walk
pub mod Servers
pub mod Resolved
pub mod Startup
pub mod Clean
pub mod Reacts
pub mod Served
pub mod Waits
pub mod Session
pub mod Frames
pub mod Quits
pub mod Run
pub mod Kept
pub mod Ended
