-- ===== src/Detector.antt =====
-- internal/detector: observing OOM kills.
pub mod Event
pub mod Poller
pub mod Ebpf
