-- ===== src/Controller/Advance.antt =====
-- When an iteration of the reconcile loop makes progress for the pods that wait.
use kubto.Prelude.{
  ℕ, ◌^◌, ◌≤◌, ◌<◌, ◌≡◌, subst, ◌⊎◌, true, false, some, length, arith, ltb, ◌==◌, IsNat64, lt64,
  lt64-lt, sub_time,
}
use kubto.Platform.{Quantity, Float64}
use kubto.Monitor.Watchers.{handle_all}
use kubto.Estimator.Packing.{EstimationReport, ResourceEstimator, ResourceDelta, is_zero}
use kubto.Estimator.Estimate.{Sorter, estimate_detailed}
use kubto.Decision.{Decision, ThresholdPolicy, exceeds_threshold, evaluate, decide}
use kubto.Decision.Bounds.{scale_up-bounds}
use kubto.Decision.Cases.{scale_up_iff}
use kubto.Provisioner.{NodeProvisioner}
use kubto.Lifecycle.Api.{Env}
use kubto.Controller.Scaling.{AutoscalerController, handle_scale_up}
use kubto.Controller.Provisioning.{after_creations, calls_wanted, scale_up-calls}
use kubto.Controller.Reconcile.{Course, World, capped, act_on, branch_a, finish, reconcile}
use kubto.Controller.Limits.{joining}
use kubto.Controller.Seen.{at_estimate, at_policy, at_handler, waiting}

capped_bounds :
    (dec : Decision) (report : EstimationReport)
    → 1 ≤ dec.count
    → 1 ≤ report.nodes_needed
    → (1 ≤ (capped dec report).count) × ((capped dec report).count ≤ dec.count)
unfolding capped
capped_bounds dec report some_asked some_needed = ground arith

-- A positive shortfall in a resource that passes its threshold.
exceeds :
    {F : Type 0} (p : ThresholdPolicy F) (d : ResourceDelta)
    → IsNat64 d.cpu_millicores
    → IsNat64 d.memory_bytes
    → IsNat64 p.cpu_threshold_millicores
    → IsNat64 p.memory_threshold_bytes
    → (p.cpu_threshold_millicores < d.cpu_millicores) ⊎ (p.memory_threshold_bytes < d.memory_bytes)
    → exceeds_threshold p d ≡ true
unfolding exceeds_threshold is_zero
exceeds p d a b c m over = ground (
  arith,
  lt64-lt p.cpu_threshold_millicores d.cpu_millicores,
  lt64-lt p.memory_threshold_bytes d.memory_bytes,
)

-- One or more calls of `CreateNode` were made.
abbrev pub Creates : {W : Type 0} → NodeProvisioner W → W → W → Type 0
Creates prov w v = (n : ℕ) × (1 ≤ n) × (v ≡ after_creations prov n w)

module _ {Q W : Type 0} (prov : NodeProvisioner W) where
  handle-Creates :
      (now later : ℕ) (dec : Decision) (c : AutoscalerController Q) (w : W)
      → 1 ≤ dec.count
      → dec.count < 2 ^ 62
      → joining c.in_flight_provisioning c.state ≡ 0
      → lt64 (sub_time now c.last_scale_up) c.scale_up_cooldown ≡ false
      → Creates prov w (handle_scale_up prov now later dec c w).1
  handle-Creates now later dec c w some_asked small none_join over =
      let same : (calls_wanted prov now later dec c w ≡ dec.count) = rw over (omega arith) in
      (
        dec.count,
        some_asked,
        subst (λ n. (handle_scale_up prov now later dec c w).1 ≡ after_creations prov n w) same
            (scale_up-calls prov now later dec c w small (omega arith)),
      )

module _ {Q W : Type 0} ⦃q : Quantity Q⦄ (prov : NodeProvisioner W) (course : Course Q) where
  act_on-Creates :
      (report : EstimationReport) (dec : Decision) (s : World Q W)
      → dec.scale_up ≡ true
      → 1 ≤ dec.count
      → dec.count < 2 ^ 62
      → 1 ≤ report.nodes_needed
      → let c = s.controller in
        joining c.in_flight_provisioning (handle_all c.state course.before_handler) ≡ 0
        → lt64 (sub_time course.check_now c.last_scale_up) c.scale_up_cooldown ≡ false
        → Creates prov s.provisioner (act_on prov course report dec s).provisioner
  unfolding act_on
  act_on-Creates report dec s up some_asked small some_needed none_join over =
      let bounds = capped_bounds dec report some_asked some_needed in
      simp up (
        handle-Creates prov course.check_now course.end_now (capped dec report) _ s.provisioner
          (bounds.0) (omega arith) none_join over)

module _ {Q F W : Type 0} ⦃q : Quantity Q⦄ (fl : Float64 F) (sort : Sorter Q F)
    (e : ResourceEstimator) (policy : ThresholdPolicy F) (threshold : F) (prov : NodeProvisioner W)
    (env : Env Q) (course : Course Q) (s : World Q W) where
  -- What the estimate finds for the pods that wait.
  abbrev pub estimated : EstimationReport
  estimated =
      let start = s.controller.state in
      estimate_detailed fl sort e (some (at_estimate course start)) (waiting course start)

  -- With numbers in range: an iteration makes at least one call of `CreateNode`, and no other call
  -- of the provisioner, if pods wait for which the estimate needs a node and finds a shortfall
  -- above a threshold, the nodes that the policy sees are fewer than its limit, no node is in
  -- flight or not ready when the handler looks, and the cooldown is over.
  pub reconcile-Creates :
      policy.max_nodes < 2 ^ 62
      → IsNat64 policy.cpu_threshold_millicores
      → IsNat64 policy.memory_threshold_bytes
      → IsNat64 estimated.delta.cpu_millicores
      → IsNat64 estimated.delta.memory_bytes
      → let start = s.controller.state in
        let c = s.controller in
        0 < length (waiting course start)
        → 1 ≤ estimated.nodes_needed
        → (policy.cpu_threshold_millicores < estimated.delta.cpu_millicores)
          ⊎ (policy.memory_threshold_bytes < estimated.delta.memory_bytes)
        → length (at_policy course start).nodes < policy.max_nodes
        → joining c.in_flight_provisioning (at_handler course start) ≡ 0
        → lt64 (sub_time course.check_now c.last_scale_up) c.scale_up_cooldown ≡ false
        → Creates prov s.provisioner
            (reconcile fl sort e policy threshold prov env course s).provisioner
  unfolding reconcile finish branch_a decide
  reconcile-Creates small tc tm dc dm some_wait some_needed above room none_join over =
      let start = s.controller.state in
      let wait : (ltb 0 (length (waiting course start)) ≡ true) = ground arith in
      let needs : (estimated.nodes_needed == 0) ≡ false = ground arith in
      let seen = at_policy course start in
      let delta = estimated.delta in
      let up =
        (scale_up_iff fl policy course.policy_now delta seen (omega arith) (omega arith)).1
          (exceeds policy delta dc dm tc tm above, room) in
      let bounds =
        scale_up-bounds fl policy course.policy_now delta seen (omega arith) (omega arith) up in
      simp (wait, needs)
        (act_on-Creates prov course estimated (evaluate fl policy course.policy_now delta seen) _ up
          bounds.0 (omega (arith, bounds.1)) some_needed none_join over)
