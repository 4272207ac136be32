-- ===== src/Interactive.antt =====
-- The interactive tool, canopen-interactive/co.py.
pub mod Flash
pub mod Conforms
pub mod Objects
pub mod Dict
pub mod Sorting
pub mod Monitor
pub mod Refresh
pub mod Text
pub mod Session
pub mod Menu
