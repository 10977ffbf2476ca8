-- ===== src/Cgroup.antt =====
-- internal/cgroup: reading the memory controller.
pub mod Stats
pub mod Parse
pub mod Reader
pub mod Hierarchy
