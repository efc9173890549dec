-- ===== src/Controller.antt =====
-- autoscaler/pkg/controller/autoscaler_controller.go, with the metrics that it updates.
pub mod Metrics
pub mod Scaling
pub mod Reconcile
pub mod Backoff
pub mod Provisioning
pub mod Seen
pub mod Rounds
pub mod Ignored
pub mod Limits
pub mod Containers
pub mod Keeps
pub mod Calls
pub mod Agreement
pub mod Advance
pub mod Measures
pub mod Wiring
pub mod Cooldown
pub mod Pauses
pub mod Loop
