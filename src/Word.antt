-- ===== src/Word.antt =====
-- `os_size_t` of a 64-bit target (include/os_def.h), and the laws of its bits.
mod Defs
pub mod Align
pub mod Bits
pub mod Log
pub mod Xor
pub use Defs.*
