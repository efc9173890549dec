-- ===== src/Tests/Waits.antt =====
-- The theorem on pods that wait without effect, at a concrete input.
use kubto.Prelude.{ℕ, ◌≡◌, refl, some, [], ◌∷◌, contains, add64, sub64, lt64, le64, arith}
use kubto.Monitor.Types.{ClusterState}
use kubto.Detector.{detect_unschedulable_pods, is_resource_unschedulable}
use kubto.Estimator.Constraints.{selector_matches, taints_tolerated, can_pod_fit_constraints}
use kubto.Estimator.Bins.{best_fit}
use kubto.Estimator.Packing.{new_resource_estimator, choose, new_node, commit, pack}
use kubto.Estimator.Estimate.{
  score_of, shortfall, candidates_of, start, note_pod, candidate_of, keep_pod, categorize,
  estimate_detailed,
}
use kubto.Provisioner.Fake.{FakeNodeProvisioner, new_fake_provisioner}
use kubto.Controller.Reconcile.{World, reconcile}
use kubto.Controller.Seen.{waiting}
use kubto.Controller.Ignored.{small_shortfall-no_provisioning}
use kubto.Tests.Instances.{fractions, natural, insertion_sort, sorter}
use kubto.Tests.Fixtures.{steady_provisioner, waiting_pod, obliging, policy, course, controller}

-- One small pod waits, and there is no node.
abbrev one_small : ClusterState ℕ
one_small = record {
  pending_pods = waiting_pod "small" 400 1000 ∷ [];
  scheduled_pods = [];
  nodes = [];
}

abbrev world : World ℕ FakeNodeProvisioner
world = record {
  controller = controller one_small;
  provisioner = new_fake_provisioner;
  history = [];
}

one_waits : waiting course one_small ≡ one_small.pending_pods
unfolding detect_unschedulable_pods is_resource_unschedulable contains
one_waits = refl

small_delta :
    (estimate_detailed fractions sorter new_resource_estimator
      (some one_small)
      one_small.pending_pods).delta
    ≡ record { cpu_millicores = 400; memory_bytes = 1000 }
unfolding estimate_detailed categorize note_pod keep_pod candidate_of score_of start candidates_of
    insertion_sort pack choose best_fit commit new_node shortfall can_pod_fit_constraints
    selector_matches taints_tolerated new_resource_estimator add64 sub64 lt64 le64
small_delta = refl

small_shortfall-no_provisioning_example :
    (reconcile fractions sorter new_resource_estimator policy
      (20, 1)
      steady_provisioner
      obliging
      course
      world).provisioner
    ≡ new_fake_provisioner
small_shortfall-no_provisioning_example =
    small_shortfall-no_provisioning fractions sorter new_resource_estimator policy (20, 1)
      steady_provisioner obliging course world (omega arith) (omega arith)
      (rw one_waits (omega arith)) (rw (one_waits, small_delta) (omega arith))
