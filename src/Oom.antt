-- ===== src/Oom.antt =====
-- internal/oom: the post-mortem.
pub mod Report
pub mod Window
pub mod Fixtures
pub mod Processes
