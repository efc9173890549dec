-- ===== src/Tests/Advances.antt =====
-- The theorems on the progress of an iteration, and on what it measures, at concrete inputs.
use kubto.Prelude.{
  ℕ, some, ◌≡◌, refl, false, inl, arith, abs64, add64, sub64, div64, lt64, le64, sub_time,
  zero_time, contains,
}
use kubto.Detector.{detect_unschedulable_pods}
use kubto.Estimator.Constraints.{selector_matches, taints_tolerated, can_pod_fit_constraints}
use kubto.Estimator.Bins.{can_hold, remaining_after, best_fit, search_from, improve, take_capacity}
use kubto.Estimator.Packing.{choose, new_resource_estimator, new_node, commit, pack}
use kubto.Estimator.Estimate.{
  candidates_of, bins_of, bin_of, packed, categorize, keep_pod, candidate_of, score_of, note_pod,
  start, estimate_detailed, shortfall,
}
use kubto.Provisioner.Fake.{FakeNodeProvisioner, new_fake_provisioner}
use kubto.Controller.Metrics.{new_metrics}
use kubto.Controller.Measures.{shown_by, measured, reconcile-measured}
use kubto.Controller.Scaling.{unready_count}
use kubto.Controller.Reconcile.{World, reconcile}
use kubto.Controller.Limits.{joining}
use kubto.Controller.Seen.{at_handler}
use kubto.Controller.Advance.{Creates, estimated, reconcile-Creates}
use kubto.Tests.Instances.{fractions, sorter, natural, insertion_sort, insert_by}
use kubto.Tests.Fixtures.{steady_provisioner, controller, policy, course, obliging, half_used}
use kubto.Tests.Controllers.{world, two_wait}

-- The larger pod needs a new node.
report :
    let r =
      estimated fractions sorter new_resource_estimator policy
        (20, 1)
        steady_provisioner
        obliging
        course
        (world half_used) in
    (r.nodes_needed ≡ 1) × (r.delta.cpu_millicores ≡ 1800) × (r.delta.memory_bytes ≡ 1000)
unfolding estimate_detailed packed categorize keep_pod candidate_of score_of note_pod pack choose
    commit new_node insertion_sort insert_by start candidates_of bins_of bin_of best_fit search_from
    improve can_hold remaining_after take_capacity can_pod_fit_constraints selector_matches
    taints_tolerated new_resource_estimator le64 add64 sub64 div64 abs64 lt64 shortfall
    detect_unschedulable_pods contains
report = (refl, refl, refl)

none_join : joining 0 (at_handler course half_used) ≡ 0
unfolding unready_count
none_join = refl

cooldown_over :
    lt64 (sub_time course.check_now zero_time) (controller half_used).scale_up_cooldown ≡ false
unfolding lt64 sub_time
cooldown_over = refl

reconcile-Creates_example :
    Creates steady_provisioner new_fake_provisioner
      (reconcile fractions sorter new_resource_estimator policy
        (20, 1)
        steady_provisioner
        obliging
        course
        (world half_used)).provisioner
reconcile-Creates_example =
    reconcile-Creates fractions sorter new_resource_estimator policy (20, 1) steady_provisioner
      obliging course (world half_used) (omega arith) (omega arith) (omega arith)
      (omega (arith, report)) (omega (arith, report)) two_wait (omega (arith, report))
      (inl (omega (arith, report))) (omega arith) none_join cooldown_over

abbrev measuring : World ℕ FakeNodeProvisioner
measuring = record (world half_used) {
  controller = record (controller half_used) { metrics = some new_metrics };
}

reconcile-measured_example :
    shown_by
      (reconcile fractions sorter new_resource_estimator policy
        (20, 1)
        steady_provisioner
        obliging
        course
        measuring).controller.metrics
    ≡ some (
        measured fractions sorter new_resource_estimator policy
          (20, 1)
          steady_provisioner
          obliging
          course
          half_used
          new_metrics)
reconcile-measured_example =
    reconcile-measured fractions sorter new_resource_estimator policy (20, 1) steady_provisioner
      obliging course measuring new_metrics refl
