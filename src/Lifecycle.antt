-- ===== src/Lifecycle.antt =====
-- autoscaler/pkg/lifecycle: which nodes are idle, and the removal of a node.
pub mod Api
pub mod Drain
pub mod Removal
pub mod Idle
pub mod Safety
pub mod Effects
pub mod Unmanaged
pub mod Progress
pub mod Calls
pub mod IdleNodes
pub mod Manager
pub mod Evictions
