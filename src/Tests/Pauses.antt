-- ===== src/Tests/Pauses.antt =====
-- The theorem on two scale-ups at a concrete input.
use kubto.Prelude.{
  ℕ, ◌<◌, ◌+◌, ◌*◌, ◌≡◌, ◌⊎◌, refl, [], length, arith, lt64, le64, add64, sub64, div64, abs64,
  neg64, mul64, sub_time, add_time, zero_time, contains,
}
use kubto.Detector.{detect_unschedulable_pods, is_resource_unschedulable}
use kubto.Estimator.Constraints.{selector_matches, taints_tolerated, can_pod_fit_constraints}
use kubto.Estimator.Bins.{can_hold, remaining_after, best_fit, search_from, improve, take_capacity}
use kubto.Estimator.Packing.{choose, new_resource_estimator, new_node, commit, pack, is_zero}
use kubto.Estimator.Estimate.{
  candidates_of, bins_of, bin_of, packed, categorize, keep_pod, candidate_of, score_of, note_pod,
  start, estimate_detailed, shortfall,
}
use kubto.Decision.{evaluate, decide, exceeds_threshold, needed_nodes, ceil_div}
use kubto.Provisioner.Fake.{
  FakeNodeProvisioner, new_fake_provisioner, fake_provisioner, create_node, begin_create,
  end_create, sleep,
}
use kubto.Controller.Scaling.{
  unready_count, handle_scale_up, provision, note_creation, settle, backoff,
}
use kubto.Controller.Reconcile.{
  Course, World, reconcile, branch_a, act_on, capped, finish, catch_up,
}
use kubto.Controller.Seen.{waiting}
use kubto.Controller.Pauses.{scale_ups_apart}
use kubto.Tests.Instances.{fractions, sorter, natural, insertion_sort, insert_by}
use kubto.Tests.Fixtures.{steady_provisioner, policy, course, obliging, half_used}
use kubto.Tests.Controllers.{world, two_wait}

-- Ten seconds after the end of the first iteration.
abbrev soon : Course ℕ
soon = record course { check_now = zero_time + 3730 * 1_000_000_000 }

abbrev first : World ℕ FakeNodeProvisioner
first =
    reconcile fractions sorter new_resource_estimator policy (20, 1) steady_provisioner obliging
      course (world half_used)

scaled_up :
    (first.controller.scale_up_failures ≡ 0)
    × (first.controller.scale_up_cooldown ≡ 60_000_000_000)
    × (first.controller.state ≡ half_used)
unfolding reconcile finish branch_a act_on capped handle_scale_up provision note_creation settle
    unready_count evaluate decide exceeds_threshold is_zero needed_nodes ceil_div fake_provisioner
    create_node begin_create end_create sleep estimate_detailed packed categorize keep_pod
    candidate_of score_of note_pod pack choose commit new_node insertion_sort insert_by start
    candidates_of bins_of bin_of best_fit search_from improve can_hold remaining_after take_capacity
    can_pod_fit_constraints selector_matches taints_tolerated new_resource_estimator le64 add64
    sub64 div64 abs64 neg64 lt64 shortfall mul64 detect_unschedulable_pods is_resource_unschedulable
    contains sub_time new_fake_provisioner backoff add_time
scaled_up = (refl, refl, refl)

two_wait_still : 0 < length (waiting soon first.controller.state)
two_wait_still = rw (scaled_up.2) two_wait

scale_ups_apart_example :
    let second =
      reconcile fractions sorter new_resource_estimator policy
        (20, 1)
        steady_provisioner
        obliging
        soon
        (catch_up [] first) in
    (first.provisioner ≡ (world half_used).provisioner) ⊎ (second.provisioner ≡ first.provisioner)
scale_ups_apart_example =
    scale_ups_apart fractions sorter new_resource_estimator policy steady_provisioner (20, 1)
      obliging obliging course soon [] (world half_used) two_wait two_wait_still (omega arith)
      (omega arith) (omega arith) (omega (arith, scaled_up)) (omega arith)
      (rw (scaled_up.0, scaled_up.1) (omega arith))
