-- ===== src/Boot/X86.antt =====
-- kernel/boot/x86.
pub mod Mutex
pub mod Scheduler
pub mod Events
pub mod Dispatch
