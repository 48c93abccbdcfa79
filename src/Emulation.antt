-- ===== src/Emulation.antt =====
-- kernel/emulation
pub mod X4
