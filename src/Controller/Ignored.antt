-- ===== src/Controller/Ignored.antt =====
-- Pods that wait without effect.
use kubto.Prelude.{
  ◌≤◌, ◌<◌, ◌≡◌, inl, inr, false, some, length, Bool-cases, arith, ltb, ◌==◌, true, IsNat64,
}
use kubto.Platform.{Quantity, Float64}
use kubto.Estimator.Packing.{EstimationReport, ResourceEstimator}
use kubto.Estimator.Estimate.{Sorter, estimate_detailed}
use kubto.Decision.{Decision, ThresholdPolicy, decide}
use kubto.Decision.Cases.{small_shortfall_ignored}
use kubto.Provisioner.{NodeProvisioner}
use kubto.Lifecycle.Api.{Env}
use kubto.Controller.Reconcile.{Course, World, act_on, branch_a, finish, reconcile}
use kubto.Controller.Seen.{at_estimate, at_policy, waiting}

module _ {Q W : Type 0} ⦃q : Quantity Q⦄ (prov : NodeProvisioner W) (course : Course Q) where
  no_scale_up-provisioner :
      (report : EstimationReport) (dec : Decision) (s : World Q W)
      → dec.scale_up ≡ false
      → (act_on prov course report dec s).provisioner ≡ s.provisioner
  unfolding act_on
  no_scale_up-provisioner report dec s down = simp down

module _ {Q F W : Type 0} ⦃q : Quantity Q⦄ (fl : Float64 F) (sort : Sorter Q F)
    (e : ResourceEstimator) (policy : ThresholdPolicy F) (threshold : F) (prov : NodeProvisioner W)
    (env : Env Q) (course : Course Q) where
  -- With thresholds below 2 ^ 63: while pods wait and the shortfall that the estimate reports
  -- exceeds neither threshold, an iteration leaves the provisioner as it was, however many nodes
  -- the estimate needs.
  pub small_shortfall-no_provisioning :
      (s : World Q W)
      → IsNat64 policy.cpu_threshold_millicores
      → IsNat64 policy.memory_threshold_bytes
      → let start = s.controller.state in
        0 < length (waiting course start)
        → let d =
            (estimate_detailed fl sort e
              (some (at_estimate course start))
              (waiting course start)).delta in
          (d.cpu_millicores ≤ policy.cpu_threshold_millicores)
            × (d.memory_bytes ≤ policy.memory_threshold_bytes)
          → (reconcile fl sort e policy threshold prov env course s).provisioner ≡ s.provisioner
  unfolding reconcile finish branch_a decide
  small_shortfall-no_provisioning s c m some_wait small =
      let wait : (ltb 0 (length (waiting course s.controller.state)) ≡ true) = ground arith in
      let start = s.controller.state in
      let report =
        estimate_detailed fl sort e (some (at_estimate course start)) (waiting course start) in
      elim (Bool-cases (report.nodes_needed == 0)) [
        | inl none_needed ↦ simp (wait, none_needed)
        | inr some_needed ↦
            simp (wait, some_needed)
              (no_scale_up-provisioner prov course report _ _ (
                small_shortfall_ignored fl policy course.policy_now report.delta
                  (at_policy course start) c m small.0 small.1))
      ]
