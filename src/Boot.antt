-- ===== src/Boot.antt =====
-- Starting up: the boot information and the entry point.
pub mod Multiboot
pub mod Main
