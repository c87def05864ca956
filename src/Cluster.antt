-- ===== src/Cluster.antt =====
-- packages/core/src/cluster: what the processes of a cluster agree on.
pub mod Locks
pub mod Requests
pub mod Registry
pub mod Coordinator
