-- ===== src/Correlate.antt =====
-- internal/correlate: from a cgroup path to a Kubernetes identity.
pub mod Identity
pub mod Lookup
pub mod Resolver
pub mod CgroupPath
