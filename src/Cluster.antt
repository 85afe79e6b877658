-- ===== src/Cluster.antt =====
-- crates/synaptica-cluster/src: partitions, and transactions over several partitions.
pub mod Partitions
pub mod Membership
pub mod DecisionLog
pub mod TwoPhase
