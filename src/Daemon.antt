-- ===== src/Daemon.antt =====
-- internal/daemon/capture_wal.go and internal/daemon/capture.go: the daemon's durable queue of
-- captured events, and the scan that fills it and publishes from it.
pub mod Wal
pub mod Fifo
pub mod Capture
pub mod Delivery
pub mod Seen
mod Tests
