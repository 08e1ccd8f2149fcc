-- ===== src/Libc.antt =====
-- memory/stdmemory.c and utils/string.c: the kernel's own part of the C library.
pub mod Memory
pub mod Strings
pub mod Compare
pub mod Itoa
mod Tests
