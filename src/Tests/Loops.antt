-- ===== src/Tests/Loops.antt =====
-- The theorems on the loop of the controller at a concrete run.
use kubto.Prelude.{ℕ, refl, true, arith}
use kubto.Estimator.Packing.{new_resource_estimator}
use kubto.Provisioner.Fake.{FakeNodeProvisioner, new_fake_provisioner}
use kubto.Monitor.Watchers.{node_changed}
use kubto.Controller.Metrics.{new_metrics}
use kubto.Controller.Loop.{
  ticking, Loop, start_loop, event, pods_sync, nodes_sync, synced, tick, skip, enter, body, Reach,
  here, next, observe, iterate,
}
use kubto.Controller.Loop.Invariant.{LoopInv, run-LoopInv}
use kubto.Controller.Loop.Waiting.{IsQuiet, run_waits-IsQuiet}
use kubto.Tests.Instances.{fractions, sorter, natural}
use kubto.Tests.Fixtures.{steady_provisioner, obliging, policy, course, managed_node}

abbrev State : Type 0
State = Loop ℕ FakeNodeProvisioner

abbrev Run : State → State → Type 0
Run = Reach fractions sorter new_resource_estimator policy (20, 1) steady_provisioner

abbrev started : State
started = start_loop new_metrics new_fake_provisioner

-- A node joins.
abbrev joined : State
joined = record started {
  pods_synced = true;
  world = observe (node_changed (managed_node "worker")) started.world;
}

-- The node joins when the cache of the pods is filled, and not yet that of the nodes.
pods_and_joined : Run started joined
pods_and_joined = next (next here pods_sync) (event (node_changed (managed_node "worker")))

abbrev filled : State
filled = record joined { nodes_synced = true; phase = ticking }

-- Two ticks, of which one takes the lock.
abbrev locked : State
locked = record filled { spawned = 1; mutex = true; entered = 1 }

-- The iteration's body has run, and the lock is still held.
abbrev leaving : State
leaving = record locked {
  spawned = 0;
  entered = 0;
  leaving = 1;
  world =
      iterate fractions sorter new_resource_estimator policy (20, 1) steady_provisioner obliging
        course locked.world;
}

filled_and_locked : Run started locked
filled_and_locked =
    next
      (next (next (next (next pods_and_joined nodes_sync) (synced refl refl refl)) (tick refl))
        (tick refl))
      (enter (omega arith) refl)

-- The second tick finds the lock taken, and the body runs.
joined_and_ticked : Run started leaving
joined_and_ticked =
    next (next filled_and_locked (skip (omega arith) refl)) (body obliging course (omega arith))

run_waits-IsQuiet_example : IsQuiet new_fake_provisioner joined
run_waits-IsQuiet_example =
    run_waits-IsQuiet fractions sorter new_resource_estimator policy (20, 1) steady_provisioner
      new_fake_provisioner new_metrics joined pods_and_joined refl

run-LoopInv_example :
    LoopInv fractions sorter new_resource_estimator policy (20, 1) steady_provisioner leaving
run-LoopInv_example =
    run-LoopInv fractions sorter new_resource_estimator policy (20, 1) steady_provisioner
      new_metrics new_fake_provisioner leaving joined_and_ticked
