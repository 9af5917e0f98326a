-- ===== src/Sentinel.antt =====
-- senko-sentinel: the state of the monitored masters, failure detection and elections.
pub mod State
pub mod Tilt
pub mod Detector
pub mod Election
pub mod Failover
