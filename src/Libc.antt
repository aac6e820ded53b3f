-- ===== src/Libc.antt =====
-- lib/libc and lib/math.
pub mod Strings
pub mod Memory
pub mod Math
