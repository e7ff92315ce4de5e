-- ===== src/Tests.antt =====
-- The theorems at concrete inputs.
mod Callers
mod Linked
mod Expanded
mod Engine
mod Wire
mod Process
mod Screen
mod Symbols
mod Program
mod Startup
