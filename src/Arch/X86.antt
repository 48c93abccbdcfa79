-- ===== src/Arch/X86.antt =====
-- kernel/arch/x86: memory management.
pub mod Heap
pub mod Pmm
