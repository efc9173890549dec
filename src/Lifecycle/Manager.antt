-- ===== src/Lifecycle/Manager.antt =====
-- The parts of the lifecycle manager and their constructors (autoscaler/pkg/lifecycle/:
-- idle_detector.go, node_drain.go and node_cleanup.go). `Hook` is the type of the cleanup's hook.
use kubto.Prelude.{ℕ, Option, none}
use kubto.Utils.{default_drain_timeout_seconds}
use kubto.Platform.{Float64}

pub record NodeDrainer : Type 0 where
  pub timeout : ℕ

unfoldable pub new_node_drainer : NodeDrainer
new_node_drainer = record { timeout = default_drain_timeout_seconds }

pub record NodeCleanup (Hook : Type 0) : Type 0 where
  pub provider_cleanup_hook : Option Hook

unfoldable pub new_node_cleanup : {Hook : Type 0} → NodeCleanup Hook
new_node_cleanup = record { provider_cleanup_hook = none }

pub record NodeLifecycleManager (F Hook : Type 0) : Type 0 where
  pub drainer : NodeDrainer
  pub cleanup : NodeCleanup Hook
  pub cpu_idle_threshold_percent : F

-- The threshold is the constant 20.0.
unfoldable pub new_node_lifecycle_manager :
    {F Hook : Type 0} → Float64 F → NodeLifecycleManager F Hook
unfolding new_node_drainer new_node_cleanup
new_node_lifecycle_manager fl = record {
  drainer = new_node_drainer;
  cleanup = new_node_cleanup;
  cpu_idle_threshold_percent = fl.of_int64 20;
}
