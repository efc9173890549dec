-- ===== src/Estimator.antt =====
-- autoscaler/pkg/estimator/resource_estimator.go: the bin-packing of pending pods.
pub mod Constraints
pub mod Bins
pub mod Packing
pub mod Estimate
