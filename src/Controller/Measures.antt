-- ===== src/Controller/Measures.antt =====
-- What the metrics show after an iteration of the reconcile loop.
use kubto.Prelude.{
  ℕ, zero, suc, ◌+◌, ◌≡◌, refl, ap, ◌∙◌, inl, inr, Option, none, some, List, [], ◌∷◌, String,
  length, Bool-cases, ltb, ◌==◌, lt64, le64, sub64, add64, sub_time, arith, if◌then◌else◌,
}
use kubto.Platform.{Quantity, Float64}
use kubto.Monitor.Types.{PodInfo, NodeInfo, ClusterState}
use kubto.Monitor.Watchers.{handle_all}
use kubto.Estimator.Packing.{EstimationReport, ResourceEstimator}
use kubto.Estimator.Estimate.{Sorter, estimate_detailed}
use kubto.Decision.{Decision, ThresholdPolicy}
use kubto.Provisioner.{Creation, created, creation_failed, NodeProvisioner}
use kubto.Lifecycle.Api.{History, Env}
use kubto.Lifecycle.Removal.{RemoveError, remove_node}
use kubto.Controller.Metrics.{
  Metrics, inc_scale_up, inc_scale_down, inc_nodes_provisioned, inc_nodes_terminated,
  inc_provision_failure, record_provision_duration, record_decision, record_reconcile_duration,
  set_pending_pods, set_active_nodes, set_estimated_required_nodes, set_infeasible_pods,
}
use kubto.Controller.Scaling.{
  AutoscalerController, with_metrics, Attempts, note_creation, provision, settle, unready_count,
  handle_scale_up, note_removal, handle_scale_down, set_provisioner,
}
use kubto.Controller.Reconcile.{
  Course, World, ready_count, capped, act_on, branch_a, scale_down_first, branch_b, finish,
  reconcile,
}
use kubto.Controller.Seen.{at_estimate, waiting}

-- The gauges, and how many iterations were timed.
pub record Shown : Type 0 where
  pub pending : ℕ
  pub active : ℕ
  pub required : ℕ
  pub infeasible : ℕ
  pub timed : ℕ

abbrev pub shown : Metrics → Shown
shown m = record {
  pending = m.pending_pods;
  active = m.active_nodes;
  required = m.estimated_required_nodes;
  infeasible = m.infeasible_pods;
  timed = m.reconcile_observations;
}

abbrev pub shown_by : Option Metrics → Option Shown
shown_by none = none
shown_by (some m) = some (shown m)

shown-with_metrics :
    (f : Metrics → Metrics)
    → ((m : Metrics) → shown (f m) ≡ shown m)
    → (o : Option Metrics) → shown_by (with_metrics f o) ≡ shown_by o
shown-with_metrics f keeps none = refl
shown-with_metrics f keeps (some m) = ap some (keeps m)

module _ {W : Type 0} (prov : NodeProvisioner W) where
  note-shown :
      (a : Attempts W) (r : Creation × W)
      → shown_by (note_creation a r).loop_metrics ≡ shown_by a.loop_metrics
  unfolding note_creation record_provision_duration inc_nodes_provisioned inc_provision_failure
  note-shown a (created name, w) = shown-with_metrics _ (λ m. refl) a.loop_metrics
  note-shown a (creation_failed e, w) = shown-with_metrics _ (λ m. refl) a.loop_metrics

  provision-shown :
      (n : ℕ) (a : Attempts W)
      → shown_by (provision prov n a).loop_metrics ≡ shown_by a.loop_metrics
  unfolding provision
  provision-shown zero a = refl
  provision-shown (suc n) a =
      provision-shown n (note_creation a (prov.create_node a.world))
      ∙ note-shown a (prov.create_node a.world)

  module _ {Q : Type 0} (now later : ℕ) where
    settle-metrics :
        (a : Attempts W) (c : AutoscalerController Q) → (settle later a c).metrics ≡ a.loop_metrics
    unfolding settle
    settle-metrics a c = ground arith

    scale_up-shown :
        (dec : Decision) (c : AutoscalerController Q) (w : W)
        → shown_by (handle_scale_up prov now later dec c w).0.metrics ≡ shown_by c.metrics
    unfolding handle_scale_up inc_scale_up
    scale_up-shown dec c w =
        let missing = sub64 dec.count (add64 c.in_flight_provisioning (unready_count c.state)) in
        elim (Bool-cases (lt64 (sub_time now c.last_scale_up) c.scale_up_cooldown)) [
          | inl cooling ↦ simp cooling
          | inr e ↦ elim (Bool-cases (le64 missing 0)) [
            | inl few ↦ simp (e, few)
            | inr more ↦
                simp (e, more)
                  (ap shown_by (settle-metrics _ _)
                    ∙ (provision-shown missing _ ∙ shown-with_metrics _ (λ m. refl) c.metrics))
          ]
        ]

    removal-shown :
        (name : String) (c : AutoscalerController Q) (w : W) (r : Option RemoveError × History Q)
        → shown_by (note_removal prov later name c w r).0.metrics ≡ shown_by c.metrics
    unfolding note_removal inc_nodes_terminated
    removal-shown name c w (some e, h) = refl
    removal-shown name c w (none, h) = shown-with_metrics _ (λ m. refl) c.metrics

    scale_down-shown :
        (env : Env Q) (name : String) (c : AutoscalerController Q) (w : W) (h : History Q)
        → shown_by (handle_scale_down prov env now later name c w h).0.metrics ≡ shown_by c.metrics
    unfolding handle_scale_down inc_scale_down
    scale_down-shown env name c w h =
        elim (Bool-cases (lt64 (sub_time now c.last_scale_down) c.scale_down_cooldown)) [
          | inl cooling ↦ simp cooling
          | inr e ↦ simp e (
              removal-shown name _ w (remove_node (set_provisioner prov w env) name h)
              ∙ shown-with_metrics _ (λ m. refl) c.metrics)
        ]

module _ {Q W : Type 0} ⦃q : Quantity Q⦄ (prov : NodeProvisioner W) (course : Course Q) where
  act_on-shown :
      (report : EstimationReport) (dec : Decision) (s : World Q W)
      → shown_by (act_on prov course report dec s).controller.metrics
        ≡ shown_by s.controller.metrics
  unfolding act_on record_decision
  act_on-shown report dec s = elim (Bool-cases dec.scale_up) [
    | inr down ↦ simp down (shown-with_metrics _ (λ m. refl) s.controller.metrics)
    | inl up ↦ simp up (
        scale_up-shown prov course.check_now course.end_now (capped dec report) _ _
        ∙ shown-with_metrics _ (λ m. refl) s.controller.metrics)
  ]

  scale_first-shown :
      (env : Env Q) (ns : List (NodeInfo Q)) (c : AutoscalerController Q) (w : W) (h : History Q)
      → shown_by (scale_down_first prov env course ns c w h).controller.metrics ≡ shown_by c.metrics
  unfolding scale_down_first record_decision
  scale_first-shown env [] c w h = shown-with_metrics _ (λ m. refl) c.metrics
  scale_first-shown env (n ∷ ns) c w h =
      scale_down-shown prov course.check_now course.end_now env n.name _ w h
      ∙ shown-with_metrics _ (λ m. refl) c.metrics

-- The two gauges that an iteration sets from the estimate.
abbrev gauge : (required infeasible : ℕ) → Option Metrics → Option Metrics
gauge required infeasible =
    with_metrics (λ m. set_infeasible_pods infeasible (set_estimated_required_nodes required m))

module _ {Q F W : Type 0} ⦃q : Quantity Q⦄ (fl : Float64 F) (sort : Sorter Q F)
    (e : ResourceEstimator) (policy : ThresholdPolicy F) (threshold : F) (prov : NodeProvisioner W)
    (env : Env Q) (course : Course Q) where
  branch_a-shown :
      (pods : List (PodInfo Q)) (s : World Q W)
      → let state = handle_all s.controller.state course.before_estimate in
        let report = estimate_detailed fl sort e (some state) pods in
        shown_by (branch_a fl sort e policy prov course pods s).controller.metrics
        ≡ shown_by (gauge report.nodes_needed (length report.infeasible_pods) s.controller.metrics)
  unfolding branch_a record_decision
  branch_a-shown pods s =
      let state = handle_all s.controller.state course.before_estimate in
      let report = estimate_detailed fl sort e (some state) pods in
      elim (Bool-cases (report.nodes_needed == 0)) [
        | inl none_needed ↦ simp none_needed (shown-with_metrics _ (λ m. refl) _)
        | inr some_needed ↦ simp some_needed (act_on-shown prov course report _ _)
      ]

  branch_b-shown :
      (s : World Q W)
      → shown_by (branch_b fl threshold prov env course s).controller.metrics
        ≡ shown_by (gauge 0 0 s.controller.metrics)
  unfolding branch_b
  branch_b-shown s = scale_first-shown prov course env _ _ _ _

  abbrev timed_more : Option Shown → Option Shown
  timed_more none = none
  timed_more (some v) = some (record v { timed = v.timed + 1 })

  finish-shown :
      (s : World Q W)
      → shown_by (finish s).controller.metrics ≡ timed_more (shown_by s.controller.metrics)
  unfolding finish record_reconcile_duration
  finish-shown s = timed s.controller.metrics
    where
      timed :
          (o : Option Metrics)
          → shown_by (with_metrics record_reconcile_duration o) ≡ timed_more (shown_by o)
      timed none = refl
      timed (some m) = refl

  -- What a collector shows after an iteration from a state `start`: the pods that wait, the nodes
  -- that were ready and open at the start, what the estimate found, and one iteration more.
  abbrev pub measured : ClusterState Q → Metrics → Shown
  measured start m =
      let pods = waiting course start in
      let report = estimate_detailed fl sort e (some (at_estimate course start)) pods in
      let wait = ltb 0 (length pods) in
      record {
        pending = length pods;
        active = ready_count start;
        required = if wait then report.nodes_needed else 0;
        infeasible = if wait then length report.infeasible_pods else 0;
        timed = m.reconcile_observations + 1;
      }

  -- After an iteration, whatever it did, the gauges show the pods that waited, the nodes of any
  -- role that were ready and open for pods, and the nodes needed and the infeasible pods of the
  -- estimate, both 0 if no pod waited; and one iteration more was timed.
  pub reconcile-measured :
      (s : World Q W) (m : Metrics)
      → s.controller.metrics ≡ some m
      → shown_by (reconcile fl sort e policy threshold prov env course s).controller.metrics
        ≡ some (measured s.controller.state m)
  unfolding reconcile set_pending_pods set_active_nodes set_estimated_required_nodes
      set_infeasible_pods
  reconcile-measured s m has =
      let start = s.controller.state in
      elim (Bool-cases (ltb 0 (length (waiting course start)))) [
        | inl wait ↦
            simp wait (
              finish-shown _ ∙ (ap timed_more (branch_a-shown (waiting course start) _) ∙ simp has))
        | inr none_waits ↦
            simp none_waits (finish-shown _ ∙ (ap timed_more (branch_b-shown _) ∙ simp has))
      ]
