-- ===== src/Util.antt =====
-- kernel/util: 64-bit division, and the texts of string.c.
pub mod Div
pub mod Text
pub mod Strings
pub mod Copy
pub mod Numbers
pub mod Parser
pub mod Tok
pub mod Math
pub mod Chain
