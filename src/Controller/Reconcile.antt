-- ===== src/Controller/Reconcile.antt =====
-- `reconcile` and `makeCriticalPodChecker` of autoscaler/pkg/controller/autoscaler_controller.go.
use kubto.Prelude.{
  ℕ, ◌==◌, ltb, Bool, true, not, ◌&&◌, ◌||◌, none, some, List, [], ◌∷◌, String, str_eq, any, length,
  select, if◌then◌else◌,
}
use kubto.Platform.{Quantity, Float64}
use kubto.Monitor.Types.{PodInfo, NodeInfo, ClusterState}
use kubto.Monitor.Watchers.{Event, handle_all}
use kubto.Detector.{detect_unschedulable_pods}
use kubto.Estimator.Packing.{EstimationReport, ResourceEstimator}
use kubto.Estimator.Estimate.{Sorter, estimate_detailed}
use kubto.Decision.{Decision, ThresholdPolicy, decide}
use kubto.Provisioner.{NodeProvisioner}
use kubto.Lifecycle.Api.{History, Env}
use kubto.Lifecycle.Idle.{find_idle_nodes}
use kubto.Controller.Metrics.{
  set_active_nodes, set_pending_pods, set_estimated_required_nodes, set_infeasible_pods,
  record_decision, record_reconcile_duration,
}
use kubto.Controller.Scaling.{
  AutoscalerController, with_metrics, handle_scale_up, handle_scale_down,
}

-- What goes on beside one iteration: the instants at which it reads the clock, in the policy, at
-- the cooldown test and at the end of the handler; and the events that the informers handle before
-- each of its reads of the cluster state after the first.
pub record Course (Q : Type 0) : Type 0 where
  pub policy_now : ℕ
  pub check_now : ℕ
  pub end_now : ℕ
  pub before_pods : List (Event Q)
  pub before_estimate : List (Event Q)
  pub before_policy : List (Event Q)
  pub before_handler : List (Event Q)
  pub before_search : List (Event Q)

-- What an iteration changes: the controller, the provisioner and the calls of the API.
pub record World (Q W : Type 0) : Type 0 where
  pub controller : AutoscalerController Q
  pub provisioner : W
  pub history : History Q

-- The informers handle these events, on the cluster state that they share with the controller.
abbrev pub catch_up : {Q W : Type 0} ⦃q : Quantity Q⦄ → List (Event Q) → World Q W → World Q W
catch_up events s = record s {
  controller = record s.controller { state = handle_all s.controller.state events };
}

module _ {Q : Type 0} where
  -- The checker treats a failed list call as critical.
  unfoldable pub critical_pod_checker : Env Q → History Q → String → Bool
  critical_pod_checker env h name = elim (env.list_pods h name) [
    | none ↦ true
    | some pods ↦
        any
          (λ pod.
            str_eq pod.priority_class_name "system-cluster-critical"
            || str_eq pod.priority_class_name "system-node-critical"
            || str_eq pod.namespace "kube-system")
          pods
  ]

  abbrev pub ready_count : ClusterState Q → ℕ
  ready_count state = length (select (λ n. n.ready && not n.unschedulable) state.nodes)

-- `dec.Count` is lowered to the number of nodes that the estimate needs.
unfoldable pub capped : Decision → EstimationReport → Decision
capped dec report =
    if ltb report.nodes_needed dec.count then record dec { count = report.nodes_needed } else dec

module _ {Q W : Type 0} ⦃q : Quantity Q⦄ (prov : NodeProvisioner W) (course : Course Q) where
  unfoldable pub act_on : EstimationReport → Decision → World Q W → World Q W
  act_on report dec s =
      let label = if dec.scale_up then "scale_up" else "noop" in
      let recorded = record s {
        controller = record s.controller {
          metrics = with_metrics (record_decision label) s.controller.metrics;
        };
      } in
      let t = catch_up course.before_handler recorded in
      let (d, w) =
        handle_scale_up prov course.check_now course.end_now (capped dec report) t.controller
          t.provisioner in
      if dec.scale_up then record t { controller = d; provisioner = w } else recorded

module _ {Q F W : Type 0} ⦃q : Quantity Q⦄ (fl : Float64 F) (sort : Sorter Q F)
    (e : ResourceEstimator) (policy : ThresholdPolicy F) (prov : NodeProvisioner W)
    (course : Course Q) where
  -- Branch A: pods are waiting.
  unfoldable pub branch_a : List (PodInfo Q) → World Q W → World Q W
  branch_a unschedulable s =
      let t = catch_up course.before_estimate s in
      let report = estimate_detailed fl sort e (some t.controller.state) unschedulable in
      let measured = record t {
        controller = record t.controller {
          metrics =
              with_metrics
                (λ m.
                  set_infeasible_pods (length report.infeasible_pods)
                    (set_estimated_required_nodes report.nodes_needed m))
                t.controller.metrics;
        };
      } in
      let idle = record measured {
        controller = record measured.controller {
          metrics = with_metrics (record_decision "noop") measured.controller.metrics;
        };
      } in
      let u = catch_up course.before_policy measured in
      let dec = decide fl policy course.policy_now report.delta u.controller.state in
      if report.nodes_needed == 0 then idle else act_on prov course report dec u

module _ {Q W : Type 0} (prov : NodeProvisioner W) (env : Env Q) (course : Course Q) where
  unfoldable pub scale_down_first :
      List (NodeInfo Q) → AutoscalerController Q → W → History Q → World Q W
  scale_down_first [] c w h = record {
    controller = record c { metrics = with_metrics (record_decision "noop") c.metrics };
    provisioner = w;
    history = h;
  }
  scale_down_first (n ∷ ns) c w h =
      let marked = record c { metrics = with_metrics (record_decision "scale_down") c.metrics } in
      let (d, v, last) =
        handle_scale_down prov env course.check_now course.end_now n.name marked w h in
      record { controller = d; provisioner = v; history = last }

module _ {Q F W : Type 0} ⦃q : Quantity Q⦄ (fl : Float64 F) (threshold : F)
    (prov : NodeProvisioner W) (env : Env Q) (course : Course Q) where
  -- Branch B: no pod is waiting.
  unfoldable pub branch_b : World Q W → World Q W
  branch_b s =
      let t = catch_up course.before_search s in
      let cleared = record t.controller {
        metrics =
            with_metrics (λ m. set_infeasible_pods 0 (set_estimated_required_nodes 0 m))
              t.controller.metrics;
      } in
      let (idle, h) = find_idle_nodes fl threshold env t.controller.state.nodes t.history in
      scale_down_first prov env course idle cleared t.provisioner h

module _ {Q W : Type 0} where
  unfoldable pub finish : World Q W → World Q W
  finish s = record s {
    controller = record s.controller {
      metrics = with_metrics record_reconcile_duration s.controller.metrics;
    };
  }

module _ {Q F W : Type 0} ⦃q : Quantity Q⦄ (fl : Float64 F) (sort : Sorter Q F)
    (e : ResourceEstimator) (policy : ThresholdPolicy F) (threshold : F) (prov : NodeProvisioner W)
    (env : Env Q) (course : Course Q) where
  -- The lock that makes a tick skip while an iteration runs is not part of this state. What the
  -- informers do after the last read of an iteration comes after it.
  unfoldable pub reconcile : World Q W → World Q W
  reconcile s =
      let counted = record s {
        controller = record s.controller {
          metrics =
              with_metrics (set_active_nodes (ready_count s.controller.state)) s.controller.metrics;
        };
      } in
      let t = catch_up course.before_pods counted in
      let unschedulable = detect_unschedulable_pods t.controller.state.pending_pods in
      let gauged = record t {
        controller = record t.controller {
          metrics = with_metrics (set_pending_pods (length unschedulable)) t.controller.metrics;
        };
      } in
      finish (
        if ltb 0 (length unschedulable)
        then branch_a fl sort e policy prov course unschedulable gauged
        else branch_b fl threshold prov env course gauged)
