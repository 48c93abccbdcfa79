-- ===== src/Emulation/X4.antt =====
-- kernel/emulation/x4: the byte-code machine of the AVR boards.
pub mod Machine
pub mod Ops
pub mod Services
pub mod Run
pub mod Stack
pub mod Calls
pub mod Compare
pub mod Interrupts
pub mod Encoding
pub mod Pointer
pub mod Length
mod Tests
