-- ===== src/Sampler.antt =====
-- internal/sampler: a rolling memory history for each cgroup.
pub mod Sample
pub mod Trend
pub mod Ring
pub mod Collect
