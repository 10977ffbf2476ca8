-- ===== src/Detector/Ebpf.antt =====
-- internal/detector/ebpf.go and ebpf_supported.go: the kernel's own report of a kill.
pub mod Wire
pub mod Index
pub mod Enrich
mod Tests
