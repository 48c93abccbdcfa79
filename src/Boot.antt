-- ===== src/Boot.antt =====
-- kernel/boot.
pub mod X86
