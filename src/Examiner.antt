-- ===== src/Examiner.antt =====
-- pkg/http/examiner.go: one config link is read, probed against a panel of endpoints, and graded.
-- What the network answers is an `Environment`, indexed by the position of the request.
pub mod Types
pub mod Endpoints
pub mod Probe
pub mod Trace
pub mod Run
pub mod Counting
pub mod Verdict
pub mod Retry
pub mod Setup
