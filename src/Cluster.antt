-- ===== src/Cluster.antt =====
-- senko-cluster: node identities and states, the slot table, routing and the topology.
pub mod Node
pub mod Slot
pub mod Route
pub mod Topology
