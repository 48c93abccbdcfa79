-- ===== src/Arch.antt =====
-- kernel/arch
pub mod X86
