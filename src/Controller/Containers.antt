-- ===== src/Controller/Containers.antt =====
-- The controller with the Kind provisioner, which it has by default.
use kubto.Prelude.{ℕ, zero, suc, ◌+◌, ◌^◌, ◌≤◌, ◌<◌, ◌⊎◌, inl, inr, String, length, arith, IsNat64}
use kubto.Platform.{Quantity, Float64}
use kubto.Estimator.Packing.{ResourceEstimator}
use kubto.Estimator.Estimate.{Sorter}
use kubto.Decision.{ThresholdPolicy}
use kubto.Provisioner.Kind.Api.{
  no_join_command, no_container, no_join, no_registration, not_ready, Result, ok, err, KindHistory,
  KindEnv,
}
use kubto.Provisioner.Kind.{KindNodeProvisioner, create_node}
use kubto.Provisioner.Kind.Containers.{started, Leaves, create_node-Leaves}
use kubto.Provisioner.Kind.Instance.{kind_provisioner}
use kubto.Lifecycle.Api.{Env}
use kubto.Controller.Provisioning.{after_creations}
use kubto.Controller.Reconcile.{Course, World, reconcile}
use kubto.Controller.Seen.{at_estimate, at_policy, at_handler, waiting}
use kubto.Controller.Limits.{AddsWithin, joining, needed_for, reconcile-AddsWithin}

module _ {Q : Type 0} where
  Leaves-started :
      (h : KindHistory Q) (r : Result String × KindHistory Q)
      → Leaves 1 h r
      → started r.1 ≤ started h + 1
  Leaves-started h (ok name, k) l = omega arith
  Leaves-started h (err no_join_command, k) l = omega arith
  Leaves-started h (err no_container, k) l = omega arith
  Leaves-started h (err no_join, k) l = omega arith
  Leaves-started h (err no_registration, k) l = omega arith
  Leaves-started h (err (not_ready name), k) l = omega arith

  module _ (env : KindEnv Q) (p : KindNodeProvisioner) where
    -- `n` calls of `CreateNode` start `n` containers at most.
    after_creations-started :
        (n : ℕ) (h : KindHistory Q)
        → started (after_creations (kind_provisioner env p) n h) ≤ started h + n
    unfolding kind_provisioner
    after_creations-started zero h = omega arith
    after_creations-started (suc n) h = omega (
      arith,
      after_creations-started n (create_node env p h).1,
      Leaves-started h (create_node env p h) (create_node-Leaves env p h),
    )

    -- What the calls of `CreateNode` start stays within the bounds of their number.
    AddsWithin-started :
        (there join limit needed : ℕ) (w v : KindHistory Q)
        → AddsWithin (kind_provisioner env p) there join limit needed w v
        → (started v ≤ started w)
          ⊎ ((there + started v ≤ limit + started w) × (join + started v ≤ needed + started w))
    AddsWithin-started there join limit needed w v (n, e, bound) =
        let few : (started v ≤ started w + n) = rw e (after_creations-started n w) in
        elim bound [ inl no_calls ↦ inl (omega arith) | inr (a, b) ↦ inr (omega arith) ]

module _ {Q F : Type 0} ⦃q : Quantity Q⦄ (fl : Float64 F) (sort : Sorter Q F)
    (e : ResourceEstimator) (policy : ThresholdPolicy F) (threshold : F) (kind_env : KindEnv Q)
    (p : KindNodeProvisioner) (env : Env Q) (course : Course Q) where
  -- With the Kind provisioner, whatever docker and the API answer, and with a limit and numbers of
  -- nodes in range: while pods wait, an iteration starts no container, or so few that the nodes
  -- that the policy saw and the new containers are together no more than the policy's limit, and
  -- the nodes that the handler saw joining and the new containers no more than the estimate needs.
  pub reconcile-started :
      (s : World Q (KindHistory Q))
      → policy.max_nodes < 2 ^ 62
      → let start = s.controller.state in
        let joins = joining s.controller.in_flight_provisioning (at_handler course start) in
        IsNat64 (length (at_policy course start).nodes)
        → joins < 2 ^ 62
        → 0 < length (waiting course start)
        → let t = reconcile fl sort e policy threshold (kind_provisioner kind_env p) env course s in
          let before = started s.provisioner in
          let now = started t.provisioner in
          (now ≤ before)
          ⊎ ((length (at_policy course start).nodes + now ≤ policy.max_nodes + before)
              × (joins + now
                  ≤ needed_for fl sort e (at_estimate course start) (waiting course start)
                    + before))
  reconcile-started s small count few some_wait = AddsWithin-started kind_env p _ _ _ _ _ _ (
      reconcile-AddsWithin fl sort e policy (kind_provisioner kind_env p) course small threshold env
        s count few some_wait)
