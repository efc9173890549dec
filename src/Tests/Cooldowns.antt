-- ===== src/Tests/Cooldowns.antt =====
-- The theorem on two removals at a concrete input.
use kubto.Prelude.{
  ℕ, ◌+◌, ◌*◌, ◌≡◌, refl, true, some, [], ◌∷◌, arith, lt64, le64, sub64, sub_time, zero_time,
}
use kubto.Detector.{detect_unschedulable_pods}
use kubto.Monitor.Watchers.{node_changed}
use kubto.Estimator.Packing.{new_resource_estimator}
use kubto.Provisioner.Fake.{FakeNodeProvisioner}
use kubto.Lifecycle.Api.{Env}
use kubto.Lifecycle.Drain.{drain, wait_for_pods_gone, poll, all_gone, evict_all}
use kubto.Lifecycle.Idle.{is_underused, is_workload_pod, node_has_workload_pods, find_idle_nodes}
use kubto.Lifecycle.Removal.{
  is_managed, run_hook, cleanup, cordon, remove_kind_container, finish_removal, after_drain,
  after_cordon, remove_node,
}
use kubto.Lifecycle.Effects.{deletions}
use kubto.Controller.Scaling.{set_provisioner, note_removal, handle_scale_down}
use kubto.Controller.Reconcile.{
  Course, World, catch_up, scale_down_first, branch_b, finish, reconcile,
}
use kubto.Controller.Cooldown.{removals_apart}
use kubto.Tests.Instances.{fractions, sorter, natural}
use kubto.Tests.Fixtures.{steady_provisioner, policy, course, obliging, managed_node}
use kubto.Tests.Controllers.{world, idle_pair}

abbrev without_pods : Env ℕ
without_pods = record obliging { list_pods = λ h name. some [] }

-- Half a minute after the end of the first iteration.
abbrev soon : Course ℕ
soon = record course { check_now = zero_time + 3750 * 1_000_000_000 }

abbrev first : World ℕ FakeNodeProvisioner
first =
    reconcile fractions sorter new_resource_estimator policy (20, 1) steady_provisioner without_pods
      course (world idle_pair)

deleted_one :
    (deletions first.history ≡ 1) × (first.controller.scale_down_cooldown ≡ 60_000_000_000)
unfolding reconcile finish branch_b scale_down_first handle_scale_down note_removal set_provisioner
    detect_unschedulable_pods find_idle_nodes node_has_workload_pods is_underused is_workload_pod
    remove_node after_cordon cordon after_drain drain evict_all wait_for_pods_gone poll all_gone
    cleanup is_managed run_hook finish_removal remove_kind_container lt64 le64 sub64 sub_time
deleted_one = (refl, refl)

too_early : lt64 (sub_time soon.check_now course.end_now) 60_000_000_000 ≡ true
unfolding lt64 sub_time
too_early = refl

removals_apart_example :
    deletions
      (reconcile fractions sorter new_resource_estimator policy
        (20, 1)
        steady_provisioner
        without_pods
        soon
        (catch_up (node_changed (managed_node "late") ∷ []) first)).history
    ≡ deletions first.history
removals_apart_example =
    removals_apart fractions sorter new_resource_estimator policy (20, 1) steady_provisioner
      without_pods without_pods course soon (node_changed (managed_node "late") ∷ [])
      (world idle_pair) (omega (arith, deleted_one)) (rw (deleted_one.1) too_early)
