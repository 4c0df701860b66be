-- ===== src/Drivers.antt =====
-- os/drivers: the drivers with state of their own.
pub mod Keyboard
pub mod VgaText
