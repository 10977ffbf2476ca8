-- ===== src/Cmd.antt =====
-- internal/cmd and internal/version: what the flags choose, and what the build says of itself.
pub mod Choices
pub mod Inspect
pub mod Version
