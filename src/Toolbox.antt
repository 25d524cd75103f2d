-- ===== src/Toolbox.antt =====
-- The workload client: toolbox/src.
pub mod Ipv4
pub mod Packet
pub mod Metrics
pub mod Outcome
pub mod Config
pub mod Https
