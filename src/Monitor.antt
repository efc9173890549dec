-- ===== src/Monitor.antt =====
-- autoscaler/pkg/monitor: the in-memory picture of the cluster.
pub mod Arrays
pub mod Types
pub mod Cluster
pub mod PodResources
pub mod Watchers
pub mod Sharing
pub mod Informers
pub mod Copies
