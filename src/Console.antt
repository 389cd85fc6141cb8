-- ===== src/Console.antt =====
-- The console server (srv/console2/): its VT100 emulator.
pub mod Screen
pub mod Interpreter
pub mod Bounds
pub mod Scrolling
pub mod Step
pub mod Safety
pub mod Writing
mod Examples
