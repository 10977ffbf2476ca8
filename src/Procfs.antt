-- ===== src/Procfs.antt =====
-- internal/procfs: process state from /proc.
pub mod Process
pub mod Status
pub mod Files
pub mod Tree
