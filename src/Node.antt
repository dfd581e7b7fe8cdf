-- ===== src/Node.antt =====
-- myriadnode-full: the daemon of a node, its adapters and what it knows of other nodes.
pub mod Scoring
pub mod Health
pub mod Failover
pub mod Diagnostics
pub mod Baseline
pub mod Beats
pub mod Heartbeat
