-- ===== src/Tests/Controllers.antt =====
-- The theorems on the controller at concrete inputs.
use mathlib.Core.Option.{some-injective}
use kubto.Prelude.{
  String, Bool, List, if◌then◌else◌, lt64, sub_time, ltb, zero_time, none, ◌+◌, ◌*◌, ◌≤◌, ℕ, ◌^◌,
  ◌<◌, ◌≡◌, ◌⊎◌, refl, true, false, some, [], ◌∷◌, length, contains, arith,
}
use kubto.Kube.{Node, Pod}
use kubto.Monitor.Types.{NodeInfo, ClusterState}
use kubto.Monitor.Cluster.{update_node, put_node, recompute_node_usage}
use kubto.Monitor.Watchers.{on_node_change, node_to_info, is_ready, node_changed}
use kubto.Detector.{detect_unschedulable_pods, is_resource_unschedulable}
use kubto.Estimator.Packing.{new_resource_estimator}
use kubto.Decision.{Decision, ThresholdPolicy}
use kubto.Provisioner.Fake.{FakeNodeProvisioner, new_fake_provisioner}
use kubto.Controller.Scaling.{unready_count, Attempts, settle}
use kubto.Controller.Backoff.{settle_blocks}
use kubto.Controller.Reconcile.{World, Course, reconcile}
use kubto.Controller.Seen.{at_policy, at_handler, waiting}
use kubto.Controller.Rounds.{TerminatesFirst, idle_nodes, reconcile-one_way}
use kubto.Controller.Limits.{AddsWithin, joining, needed_for, reconcile-AddsWithin}
use kubto.Lifecycle.Calls.{ListsAtMost}
use kubto.Controller.Calls.{reconcile-calls}
use kubto.Controller.Containers.{reconcile-started}
use kubto.Provisioner.Kind.Api.{KindHistory}
use kubto.Provisioner.Kind.Containers.{started}
use kubto.Provisioner.Kind.Instance.{kind_provisioner}
use kubto.Tests.Instances.{Fraction, fractions, sorter, natural}
use kubto.Tests.Fixtures.{
  steady_provisioner, controller, healthy, managed_node, kind, policy, course, obliging, ready_node,
  half_used,
}

-- A policy that keeps every node.
abbrev keeping : ThresholdPolicy Fraction
keeping = record policy { min_nodes = 100; critical_pod_checker = some (λ name. true) }

abbrev pub world : ClusterState ℕ → World ℕ FakeNodeProvisioner
world state = record {
  controller = controller state;
  provisioner = new_fake_provisioner;
  history = [];
}

abbrev pub idle_pair : ClusterState ℕ
idle_pair = record {
  pending_pods = [];
  scheduled_pods = [];
  nodes = ready_node "busy" 1900 3000 ∷ ready_node "idle" 100 3000 ∷ [];
}

few_joining : joining 0 half_used < 2 ^ 62
unfolding unready_count
few_joining = omega arith

pub two_wait : 0 < length (waiting course half_used)
unfolding detect_unschedulable_pods is_resource_unschedulable contains
two_wait = omega arith

none_waits : length (waiting course idle_pair) ≡ 0
unfolding detect_unschedulable_pods
none_waits = refl

-- A node joins between the estimate and the policy, and is not ready yet for the handler.
abbrev late_node : NodeInfo ℕ
late_node = record (ready_node "late" 0 0) { ready = false; labels = none }

abbrev late : Node ℕ
late = record (managed_node "late") { conditions = [] }

abbrev busy : Course ℕ
busy = record course { before_policy = node_changed late ∷ [] }

late_joins : (at_handler busy half_used).nodes ≡ ready_node "worker" 1000 3000 ∷ late_node ∷ []
unfolding on_node_change update_node put_node recompute_node_usage node_to_info is_ready
late_joins = refl

reconcile-AddsWithin_example :
    let joins = joining 0 (at_handler busy half_used) in
    AddsWithin steady_provisioner
      (length (at_policy busy half_used).nodes)
      joins
      5
      (needed_for fractions sorter new_resource_estimator half_used (waiting busy half_used))
      new_fake_provisioner
      (reconcile fractions sorter new_resource_estimator policy
        (20, 1)
        steady_provisioner
        obliging
        busy
        (world half_used)).provisioner
unfolding unready_count
reconcile-AddsWithin_example =
    reconcile-AddsWithin fractions sorter new_resource_estimator policy steady_provisioner busy
      (omega arith) (20, 1) obliging (world half_used) (rw late_joins (omega arith))
      (rw (unready_count, late_joins) (omega arith)) two_wait

reconcile-one_way_example :
    let s = world idle_pair in
    let t =
      reconcile fractions sorter new_resource_estimator policy
        (20, 1)
        steady_provisioner
        obliging
        course
        s in
    ((0 < length (waiting course s.controller.state)) × (t.history ≡ s.history))
    ⊎ ((length (waiting course s.controller.state) ≡ 0)
        × TerminatesFirst steady_provisioner
            (idle_nodes fractions (20, 1) obliging s.controller.state s.history)
            s.provisioner
            t.provisioner)
reconcile-one_way_example =
    reconcile-one_way fractions sorter new_resource_estimator policy (20, 1) steady_provisioner
      obliging course (world idle_pair)

abbrev three_more : Decision
three_more = record { scale_up = true; scale_down = false; count = 3; node_name = ""; reason = "" }

abbrev three_failures : Attempts FakeNodeProvisioner
three_failures = record {
  success_count = 0;
  failures = 3;
  loop_metrics = none;
  world = new_fake_provisioner;
}

-- The scale-up ends an hour after the zero time, and the test comes 7 seconds later.
settle_blocks_example :
    let d = settle (zero_time + 3600 * 1_000_000_000) three_failures (controller half_used) in
    lt64 (sub_time (zero_time + 3607 * 1_000_000_000) d.last_scale_up) d.scale_up_cooldown
    ≡ ltb (zero_time + 3607 * 1_000_000_000) (zero_time + 3600 * 1_000_000_000 + 20_000_000_000)
settle_blocks_example =
    settle_blocks three_failures (controller half_used) (zero_time + 3600 * 1_000_000_000)
      (zero_time + 3607 * 1_000_000_000) refl (omega arith) (omega arith) (omega arith)
      (omega arith) (omega arith) (omega arith)

abbrev kind_world : World ℕ (KindHistory ℕ)
kind_world = record { controller = controller half_used; provisioner = []; history = [] }

reconcile-started_example :
    let t =
      reconcile fractions sorter new_resource_estimator policy
        (20, 1)
        (kind_provisioner healthy kind)
        obliging
        course
        kind_world in
    (started t.provisioner ≤ 0)
    ⊎ ((1 + started t.provisioner ≤ 5 + 0)
        × (joining 0 half_used + started t.provisioner
            ≤ needed_for fractions sorter new_resource_estimator half_used
                (waiting course half_used)
              + 0))
reconcile-started_example =
    reconcile-started fractions sorter new_resource_estimator policy (20, 1) healthy kind obliging
      course kind_world (omega arith) (omega arith) few_joining two_wait

one_at_most :
    (b : Bool) (p : Pod ℕ) (pods : List (Pod ℕ))
    → some (if b then [] else p ∷ []) ≡ some pods
    → length pods ≤ 1
one_at_most true p pods e = rw (← some-injective _ _ e) (omega arith)
one_at_most false p pods e = rw (← some-injective _ _ e) (omega arith)

-- The environment lists one pod at most.
lists_one : (name : String) → ListsAtMost 1 obliging name
lists_one name h pods e = one_at_most _ _ pods e

reconcile-calls_example :
    let t =
      reconcile fractions sorter new_resource_estimator policy
        (20, 1)
        (kind_provisioner healthy kind)
        obliging
        course
        kind_world in
    (length t.history ≤ 0 + (1 + (1 + 32))) × (length t.provisioner ≤ 0 + (208 * 5 + 1))
reconcile-calls_example =
    reconcile-calls fractions sorter new_resource_estimator policy (20, 1) healthy kind obliging
      course 1 kind_world lists_one (omega arith) (omega arith) few_joining
