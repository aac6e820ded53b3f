-- ===== src/Cpu.antt =====
-- The descriptor tables of the processor.
pub mod Gdt
pub mod Idt
pub mod Small
