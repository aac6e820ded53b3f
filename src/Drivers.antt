-- ===== src/Drivers.antt =====
-- The drivers of kernel/drivers.
pub mod Bus
pub mod Vga
pub mod Rtc
pub mod Mouse
pub mod Cursor
pub mod Timer
pub mod Plain
pub mod Serial
