-- ===== src/Controller/Limits.antt =====
-- How many nodes one iteration of the reconcile loop adds.
use kubto.Prelude.{
  ℕ, ◌+◌, ◌^◌, ◌≤◌, ◌<◌, ◌≡◌, refl, ◌⊎◌, inl, inr, true, some, List, length, Bool-cases, arith, ltb,
  ◌==◌, IsNat64,
}
use kubto.Platform.{Quantity, Float64}
use kubto.Monitor.Types.{PodInfo, ClusterState}
use kubto.Monitor.Watchers.{handle_all}
use kubto.Estimator.Packing.{EstimationReport, ResourceEstimator}
use kubto.Estimator.Estimate.{Sorter, estimate_detailed}
use kubto.Decision.{Decision, ThresholdPolicy, evaluate, decide}
use kubto.Decision.Bounds.{scale_up-bounds}
use kubto.Provisioner.{NodeProvisioner}
use kubto.Lifecycle.Api.{Env}
use kubto.Controller.Scaling.{AutoscalerController, unready_count, handle_scale_up}
use kubto.Controller.Provisioning.{after_creations, calls_wanted, scale_up-calls}
use kubto.Controller.Reconcile.{Course, World, capped, act_on, branch_a, finish, reconcile}
use kubto.Controller.Seen.{at_estimate, at_policy, at_handler, waiting}

capped_count :
    (dec : Decision) (report : EstimationReport)
    → ((capped dec report).count ≤ dec.count) × ((capped dec report).count ≤ report.nodes_needed)
unfolding capped
capped_count dec report = ground arith

-- The nodes that are being provisioned, and those of a state that are not ready yet.
abbrev pub joining : {Q : Type 0} → ℕ → ClusterState Q → ℕ
joining in_flight state = in_flight + unready_count state

-- `n` calls of `CreateNode` were made. If there was one, the nodes that are there and the new ones
-- are at most `limit`, and the nodes that are joining and the new ones at most `needed`.
abbrev pub AddsWithin :
    {W : Type 0} → NodeProvisioner W → (there joining limit needed : ℕ) → W → W → Type 0
AddsWithin prov there joining limit needed w v =
    (n : ℕ) × (v ≡ after_creations prov n w)
    × ((n ≡ 0) ⊎ ((there + n ≤ limit) × (joining + n ≤ needed)))

module _ {W : Type 0} (prov : NodeProvisioner W) (there limit needed : ℕ)
    (small : limit < 2 ^ 62) where
  handle-AddsWithin :
      {Q : Type 0} (now later : ℕ) (dec : Decision) (c : AutoscalerController Q) (w : W)
      → there + dec.count ≤ limit
      → dec.count ≤ needed
      → joining c.in_flight_provisioning c.state < 2 ^ 62
      → AddsWithin prov there
          (joining c.in_flight_provisioning c.state)
          limit
          needed
          w
          (handle_scale_up prov now later dec c w).1
  handle-AddsWithin now later dec c w room asked few = (
    calls_wanted prov now later dec c w,
    scale_up-calls prov now later dec c w (omega arith) few,
    ground arith,
  )

module _ {Q W : Type 0} ⦃q : Quantity Q⦄ (prov : NodeProvisioner W) (course : Course Q)
    (there limit : ℕ) (small : limit < 2 ^ 62) where
  act_on-AddsWithin :
      (report : EstimationReport) (dec : Decision) (s : World Q W)
      → (dec.scale_up ≡ true → there + dec.count ≤ limit)
      → let seen = handle_all s.controller.state course.before_handler in
        joining s.controller.in_flight_provisioning seen < 2 ^ 62
        → AddsWithin prov there
            (joining s.controller.in_flight_provisioning seen)
            limit
            report.nodes_needed
            s.provisioner
            (act_on prov course report dec s).provisioner
  unfolding act_on
  act_on-AddsWithin report dec s fits few = elim (Bool-cases dec.scale_up) [
    | inr down ↦ simp down (0, refl, inl refl)
    | inl up ↦
        let cap = capped_count dec report in
        let room = fits up in
        simp up (
          handle-AddsWithin prov there limit report.nodes_needed small course.check_now
            course.end_now (capped dec report) _ s.provisioner (omega arith) cap.1 few)
  ]

-- The nodes that the estimate of these pods needs.
abbrev pub needed_for :
    {Q F : Type 0} ⦃q : Quantity Q⦄
    → Float64 F
    → Sorter Q F
    → ResourceEstimator
    → ClusterState Q
    → List (PodInfo Q)
    → ℕ
needed_for fl sort e state pods = (estimate_detailed fl sort e (some state) pods).nodes_needed

module _ {Q F W : Type 0} ⦃q : Quantity Q⦄ (fl : Float64 F) (sort : Sorter Q F)
    (e : ResourceEstimator) (policy : ThresholdPolicy F) (prov : NodeProvisioner W)
    (course : Course Q) (small : policy.max_nodes < 2 ^ 62) where
  branch_a-AddsWithin :
      (pods : List (PodInfo Q)) (s : World Q W)
      → let at_estimate = handle_all s.controller.state course.before_estimate in
        let at_policy = handle_all at_estimate course.before_policy in
        let at_handler = handle_all at_policy course.before_handler in
        IsNat64 (length at_policy.nodes)
        → joining s.controller.in_flight_provisioning at_handler < 2 ^ 62
        → AddsWithin prov
            (length at_policy.nodes)
            (joining s.controller.in_flight_provisioning at_handler)
            policy.max_nodes
            (needed_for fl sort e at_estimate pods)
            s.provisioner
            (branch_a fl sort e policy prov course pods s).provisioner
  unfolding branch_a decide
  branch_a-AddsWithin pods s count few =
      let at_estimate = handle_all s.controller.state course.before_estimate in
      let at_policy = handle_all at_estimate course.before_policy in
      let report = estimate_detailed fl sort e (some at_estimate) pods in
      elim (Bool-cases (report.nodes_needed == 0)) [
        | inl none_needed ↦ simp none_needed (0, refl, inl refl)
        | inr some_needed ↦ simp some_needed (
            act_on-AddsWithin prov course (length at_policy.nodes) policy.max_nodes small report
              (evaluate fl policy course.policy_now report.delta at_policy) _
              (λ up.
                (scale_up-bounds fl policy course.policy_now report.delta at_policy (omega arith)
                  count up).1)
              few)
      ]

  -- With a limit and numbers of nodes in range, and whatever the informers report during the
  -- iteration: while pods wait, it makes some number of `CreateNode` calls, and no other call of
  -- the provisioner. If it makes one, the nodes that the policy saw and the new ones are together
  -- no more than the policy's limit, and the new nodes and those that the handler saw joining, in
  -- flight or not ready, no more than the estimate needs.
  pub reconcile-AddsWithin :
      (threshold : F) (env : Env Q) (s : World Q W)
      → let start = s.controller.state in
        let joins = joining s.controller.in_flight_provisioning (at_handler course start) in
        IsNat64 (length (at_policy course start).nodes)
        → joins < 2 ^ 62
        → 0 < length (waiting course start)
        → AddsWithin prov
            (length (at_policy course start).nodes)
            joins
            policy.max_nodes
            (needed_for fl sort e (at_estimate course start) (waiting course start))
            s.provisioner
            (reconcile fl sort e policy threshold prov env course s).provisioner
  unfolding reconcile finish
  reconcile-AddsWithin threshold env s count few some_wait =
      let wait : (ltb 0 (length (waiting course s.controller.state)) ≡ true) = ground arith in
      simp wait (branch_a-AddsWithin _ _ count few)
