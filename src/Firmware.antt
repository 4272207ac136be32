-- ===== src/Firmware.antt =====
-- The firmware update of firmware-update/co-firmware-update.py.
pub mod Device
pub mod Flash
pub mod Protocol
pub mod Halts
pub mod Release
pub mod Objects
pub mod Main
