-- ===== src/Rotation.antt =====
-- pkg/proxy/service.go: the proxy service that keeps one outbound listening and rotates it.
pub mod Blacklist
pub mod Filtering
pub mod Strikes
pub mod Candidates
pub mod Handover
pub mod Selection
pub mod Loop
pub mod Steady
