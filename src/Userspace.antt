-- ===== src/Userspace.antt =====
-- kernel/userspace: the loader of programs.
pub mod Elf
pub mod Exec
