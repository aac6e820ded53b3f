-- ===== src/Fs.antt =====
-- The file systems of kernel/fs, and what their clients are promised.
pub mod Interface
pub mod Initramfs
pub mod Vfs
