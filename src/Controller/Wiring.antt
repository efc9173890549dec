-- ===== src/Controller/Wiring.antt =====
-- `NewAutoscalerController` (autoscaler/pkg/controller/autoscaler_controller.go): the parts that it
-- makes, and what they have in common.
use kubto.Prelude.{
  ℕ, ◌^◌, ◌≤◌, ◌<◌, ◌≡◌, refl, Bool, some, List, String, length, All, IsNat64, arith,
}
use kubto.Platform.{Quantity, Float64}
use kubto.Monitor.Types.{PodInfo, ClusterState, new_cluster_state}
use kubto.Estimator.Packing.{ResourceEstimator, new_resource_estimator}
use kubto.Estimator.Packing.Trace.{IsTemplate}
use kubto.Estimator.Estimate.{Sorter, estimate_detailed}
use kubto.Estimator.Estimate.Guarantees.{IsSorter, IsSized, IsAsking}
use kubto.Decision.{ThresholdPolicy, default_threshold_policy, decide}
use kubto.Provisioner.Kind.Api.{KindEnv, KindHistory}
use kubto.Provisioner.Kind.{KindNodeProvisioner, new_kind_node_provisioner, terminate_node}
use kubto.Lifecycle.Manager.{NodeLifecycleManager, new_node_lifecycle_manager}
use kubto.Controller.Metrics.{Metrics}
use kubto.Controller.Scaling.{AutoscalerController, new_autoscaler_controller}
use kubto.Controller.Reconcile.{capped}
use kubto.Controller.Agreement.{Agrees, IsAffordable, decide-capped}

-- `TerminateNode` of the Kind provisioner, as a hook.
abbrev pub Hook : Type 0 → Type 0
Hook Q = KindEnv Q → String → KindHistory Q → Bool × KindHistory Q

pub record Subsystems (Q F : Type 0) : Type 0 where
  pub controller : AutoscalerController Q
  pub estimator : ResourceEstimator
  pub policy : ThresholdPolicy F
  pub provisioner : KindNodeProvisioner
  pub lifecycle_manager : NodeLifecycleManager F (Hook Q)

module _ {F : Type 0} (Q : Type 0) (fl : Float64 F) (m : Metrics) (checker : String → Bool) where
  unfoldable pub wire : Subsystems Q F
  unfolding new_resource_estimator default_threshold_policy new_kind_node_provisioner
      new_node_lifecycle_manager
  wire =
      let lm = new_node_lifecycle_manager fl in
      record {
        controller = new_autoscaler_controller (new_cluster_state Q) m;
        estimator = new_resource_estimator;
        policy = default_threshold_policy fl checker;
        provisioner = new_kind_node_provisioner "";
        lifecycle_manager = record lm {
          cleanup = record lm.cleanup { provider_cleanup_hook = some terminate_node };
        };
      }

  -- The estimator's template is the node that the policy counts with.
  wire-Agrees : Agrees wire.policy wire.estimator
  unfolding wire
  wire-Agrees = record {
    same_cpu = refl;
    same_mem = refl;
    some_cpu = omega arith;
    some_mem = omega arith;
  }

  wire-IsTemplate : IsTemplate wire.estimator
  unfolding wire
  wire-IsTemplate = record { cpu = omega arith; mem = omega arith }

  small_limit : wire.policy.max_nodes < 2 ^ 63
  unfolding wire
  small_limit = omega arith

  -- As the controller is wired, where the sort permutes and amounts and numbers of nodes are in
  -- range, the cap on a decision by a positive estimate changes nothing.
  pub wired-capped :
      ⦃q : Quantity Q⦄ (sort : Sorter Q F) (start : ClusterState Q) (pods : List (PodInfo Q))
      (now : ℕ) (state : ClusterState Q)
      → let report = estimate_detailed fl sort wire.estimator (some start) pods in
        IsSorter sort
        → All IsSized start.nodes
        → All IsAsking pods
        → IsAffordable wire.estimator report.nodes_needed
        → 1 ≤ report.nodes_needed
        → IsNat64 (length state.nodes)
        → capped (decide fl wire.policy now report.delta state) report
          ≡ decide fl wire.policy now report.delta state
  wired-capped sort start pods now state sorts sized asking afford one few =
      decide-capped fl sort wire.estimator wire.policy start pods now state sorts wire-IsTemplate
        sized asking wire-Agrees afford one small_limit few
