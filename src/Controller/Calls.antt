-- ===== src/Controller/Calls.antt =====
-- How many calls of the lifecycle manager and of the Kind provisioner one iteration makes.
use kubto.Prelude.{
  ℕ, zero, suc, ◌+◌, ◌*◌, ◌^◌, ◌≤◌, ◌<◌, IsNat64, inl, inr, Bool-cases, List, [], ◌∷◌, String,
  length, ltb, arith, lt64, sub_time,
}
use kubto.Platform.{Quantity, Float64}
use kubto.Monitor.Types.{NodeInfo}
use kubto.Estimator.Packing.{ResourceEstimator}
use kubto.Estimator.Estimate.{Sorter}
use kubto.Decision.{ThresholdPolicy}
use kubto.Provisioner.{NodeProvisioner}
use kubto.Provisioner.Kind.Api.{KindHistory, KindEnv}
use kubto.Provisioner.Kind.{KindNodeProvisioner, create_node, remove_container, terminate_node}
use kubto.Provisioner.Kind.Calls.{CallsWithin, create_node-calls}
use kubto.Provisioner.Kind.Instance.{kind_provisioner}
use kubto.Lifecycle.Api.{History, Env}
use kubto.Lifecycle.Calls.{ListsAtMost, remove_node-calls, find_idle-calls}
use kubto.Lifecycle.Idle.{find_idle_nodes}
use kubto.Controller.Scaling.{AutoscalerController, set_provisioner, handle_scale_down}
use kubto.Controller.Reconcile.{Course, World, scale_down_first, branch_b, finish, reconcile}
use kubto.Controller.Seen.{at_policy, at_handler, at_search, waiting}
use kubto.Controller.Provisioning.{after_creations}
use kubto.Controller.Limits.{AddsWithin, joining, reconcile-AddsWithin}
use kubto.Controller.Rounds.{
  note_removal-history, branch_a-history, TerminatesFirst, idle_nodes, reconcile-one_way,
}

module _ {Q W : Type 0} (prov : NodeProvisioner W) (env : Env Q) (m : ℕ)
    (few : (name : String) → ListsAtMost m env name) where
  scale_down-calls :
      (now later : ℕ) (name : String) (c : AutoscalerController Q) (w : W) (h : History Q)
      → length (handle_scale_down prov env now later name c w h).2 ≤ length h + (m + 32)
  unfolding handle_scale_down set_provisioner
  scale_down-calls now later name c w h =
      elim (Bool-cases (lt64 (sub_time now c.last_scale_down) c.scale_down_cooldown)) [
        | inl cooling ↦ rw cooling (omega arith)
        | inr e ↦
            rw (e, note_removal-history)
              (remove_node-calls (set_provisioner prov w env) name m (few name) h)
      ]

  first-calls :
      (course : Course Q) (ns : List (NodeInfo Q)) (c : AutoscalerController Q) (w : W)
      (h : History Q)
      → length (scale_down_first prov env course ns c w h).history ≤ length h + (m + 32)
  unfolding scale_down_first
  first-calls course [] c w h = omega arith
  first-calls course (n ∷ ns) c w h = scale_down-calls _ _ n.name _ w h

module _ {Q F W : Type 0} ⦃q : Quantity Q⦄ (fl : Float64 F) (sort : Sorter Q F)
    (e : ResourceEstimator) (policy : ThresholdPolicy F) (threshold : F) (prov : NodeProvisioner W)
    (env : Env Q) (course : Course Q) where
  -- Where no list of a node's pods is longer than `m`, the lifecycle manager makes in an iteration
  -- at most one call for each node that it finds, and `m + 32` for the one that it removes.
  manager-calls :
      (m : ℕ) (s : World Q W)
      → ((name : String) → ListsAtMost m env name)
      → length (reconcile fl sort e policy threshold prov env course s).history
        ≤ length s.history + (length (at_search course s.controller.state).nodes + (m + 32))
  unfolding reconcile finish branch_b
  manager-calls m s few =
      let start = s.controller.state in
      elim (Bool-cases (ltb 0 (length (waiting course start)))) [
        | inl wait ↦ rw (wait, branch_a-history) (omega arith)
        | inr idle ↦
            let ns = (at_search course start).nodes in
            let found = find_idle_nodes fl threshold env ns s.history in
            rw idle (
              omega (
                arith,
                find_idle-calls fl threshold env ns s.history,
                first-calls prov env m few course found.0 _ s.provisioner found.1,
              ))
      ]

module _ {Q : Type 0} (kind_env : KindEnv Q) (p : KindNodeProvisioner) where
  after_creations-calls :
      (n : ℕ) (h : KindHistory Q)
      → length (after_creations (kind_provisioner kind_env p) n h) ≤ length h + 208 * n
  unfolding kind_provisioner CallsWithin
  after_creations-calls zero h = omega arith
  after_creations-calls (suc n) h =
      omega (
        arith,
        after_creations-calls n (create_node kind_env p h).1,
        create_node-calls kind_env p h,
      )

  AddsWithin-calls :
      (there join limit needed : ℕ) (h k : KindHistory Q)
      → AddsWithin (kind_provisioner kind_env p) there join limit needed h k
      → length k ≤ length h + 208 * limit
  AddsWithin-calls there join limit needed h k (n, e, bound) =
      let few : (length k ≤ length h + 208 * n) = rw e (after_creations-calls n h) in
      omega (arith, few, bound)

  TerminatesFirst-calls :
      (ns : List (NodeInfo Q)) (h k : KindHistory Q)
      → TerminatesFirst (kind_provisioner kind_env p) ns h k
      → length k ≤ length h + 1
  unfolding kind_provisioner terminate_node remove_container
  TerminatesFirst-calls [] h k same = rw same (omega arith)
  TerminatesFirst-calls (n ∷ ns) h k (inl same) = rw same (omega arith)
  TerminatesFirst-calls (n ∷ ns) h k (inr ended) = rw ended (omega arith)

module _ {Q F : Type 0} ⦃q : Quantity Q⦄ (fl : Float64 F) (sort : Sorter Q F)
    (e : ResourceEstimator) (policy : ThresholdPolicy F) (threshold : F) (kind_env : KindEnv Q)
    (p : KindNodeProvisioner) (env : Env Q) (course : Course Q) where
  -- With the Kind provisioner, whatever docker and the API answer, an iteration ends after a
  -- bounded number of calls, those of the policy's checker of critical pods not counted. The
  -- lifecycle manager makes at most one for each node that it finds, and `m + 32` for the one that
  -- it removes, where no list of a node's pods is longer than `m`; the provisioner makes at most
  -- 208 for each node that the policy's limit allows, and one. The limit and the numbers of nodes
  -- are in range.
  pub reconcile-calls :
      (m : ℕ) (s : World Q (KindHistory Q))
      → ((name : String) → ListsAtMost m env name)
      → policy.max_nodes < 2 ^ 62
      → let start = s.controller.state in
        IsNat64 (length (at_policy course start).nodes)
        → joining s.controller.in_flight_provisioning (at_handler course start) < 2 ^ 62
        → let t = reconcile fl sort e policy threshold (kind_provisioner kind_env p) env course s in
          (length t.history ≤ length s.history + (length (at_search course start).nodes + (m + 32)))
          × (length t.provisioner ≤ length s.provisioner + (208 * policy.max_nodes + 1))
  reconcile-calls m s few small count joins =
      let kind = kind_provisioner kind_env p in
      let start = s.controller.state in
      let t = reconcile fl sort e policy threshold kind env course s in
      let called : (length t.provisioner ≤ length s.provisioner + (208 * policy.max_nodes + 1)) =
        elim (reconcile-one_way fl sort e policy threshold kind env course s) [
          | inl (some_wait, _) ↦
              let created = AddsWithin-calls kind_env p _ _ _ _ s.provisioner t.provisioner (
                reconcile-AddsWithin fl sort e policy kind course small threshold env s count joins
                  some_wait) in
              omega arith
          | inr (_, ended) ↦
              let removed =
                TerminatesFirst-calls kind_env p
                  (idle_nodes fl threshold env (at_search course start) s.history) s.provisioner
                  t.provisioner ended in
              omega arith
        ] in
      (manager-calls fl sort e policy threshold kind env course m s few, called)
