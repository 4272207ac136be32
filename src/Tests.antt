-- ===== src/Tests.antt =====
-- Concrete runs, and the theorems at concrete inputs.
pub mod Plain
mod Bridge
mod Link
mod Threads
mod Refresh
mod Menu
mod Process
mod Config
mod Client
mod Commands
mod Monitor
mod Interactive
mod Firmware
