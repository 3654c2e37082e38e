-- ===== src/Name/Tables.antt =====
-- The tables that pinktrace/name.c includes.
pub mod Errno
pub mod Signal
pub mod X86_64
pub mod I386
pub mod X32
pub mod Aarch64
pub mod Arm
pub mod Powerpc
pub mod Ia64
pub mod Ia64Signal
pub mod Families
