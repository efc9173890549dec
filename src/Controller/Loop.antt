-- ===== src/Controller/Loop.antt =====
-- `Run` of autoscaler/pkg/controller/autoscaler_controller.go: the informers and the ticks, with
-- the lock of `reconcile`. Each tick starts a goroutine that tries the lock. The body of an
-- iteration is one step, which takes in the events that the informers handle between its reads of
-- the cluster state; other events come before and after it. A context that ends stops the
-- ticks, but not an iteration that runs.
pub mod Invariant
pub mod Waiting
use kubto.Prelude.{ℕ, ◌+◌, ◌-◌, ◌<◌, ◌≡◌, Bool, true, false, some, [], if◌then◌else◌}
use kubto.Platform.{Quantity, Float64}
use kubto.Monitor.Types.{new_cluster_state}
use kubto.Monitor.Watchers.{Event, handle}
use kubto.Estimator.Packing.{ResourceEstimator}
use kubto.Estimator.Estimate.{Sorter}
use kubto.Decision.{ThresholdPolicy}
use kubto.Provisioner.{NodeProvisioner}
use kubto.Lifecycle.Api.{Env}
use kubto.Controller.Metrics.{Metrics}
use kubto.Controller.Scaling.{new_autoscaler_controller}
use kubto.Controller.Reconcile.{Course, World, critical_pod_checker, reconcile}

-- `Run` waits for both caches, then ticks until its context ends.
pub data Phase : Type 0 where
  waiting ticking stopped : Phase

-- `spawned` counts the goroutines that have not tried the lock yet. `mutex` is `reconcileMu`.
-- `entered` and `leaving` count the goroutines that hold it: before the body of the iteration, and
-- after it.
pub record Loop (Q W : Type 0) : Type 0 where
  pub phase : Phase
  pub pods_synced : Bool
  pub nodes_synced : Bool
  pub spawned : ℕ
  pub mutex : Bool
  pub entered : ℕ
  pub leaving : ℕ
  pub world : World Q W

abbrev start_world : {Q W : Type 0} → Metrics → W → World Q W
start_world {Q} m w = record {
  controller = new_autoscaler_controller (new_cluster_state Q) m;
  provisioner = w;
  history = [];
}

abbrev pub start_loop : {Q W : Type 0} → Metrics → W → Loop Q W
start_loop m w = record {
  phase = waiting;
  pods_synced = false;
  nodes_synced = false;
  spawned = 0;
  mutex = false;
  entered = 0;
  leaving = 0;
  world = start_world m w;
}

module _ {Q W : Type 0} ⦃q : Quantity Q⦄ where
  -- An event changes the cluster state that the controller shares with the watchers.
  abbrev pub observe : Event Q → World Q W → World Q W
  observe e s = record s {
    controller = record s.controller { state = handle s.controller.state e };
  }

module _ {Q F W : Type 0} ⦃q : Quantity Q⦄ (fl : Float64 F) (sort : Sorter Q F)
    (e : ResourceEstimator) (policy : ThresholdPolicy F) (threshold : F)
    (prov : NodeProvisioner W) where
  -- One iteration, with the checker of critical pods that `NewAutoscalerController` injects.
  unfoldable pub iterate : Env Q → Course Q → World Q W → World Q W
  iterate env course s =
      let wired = record policy {
        critical_pod_checker = some (critical_pod_checker env s.history);
      } in
      reconcile fl sort e wired threshold prov env course s

  pub data Step (l : Loop Q W) : Loop Q W → Type 0 where
    event : (ev : Event Q) → Step l (record l { world = observe ev l.world })
    pods_sync : Step l (record l { pods_synced = true })
    nodes_sync : Step l (record l { nodes_synced = true })
    synced :
        l.phase ≡ waiting
        → l.pods_synced ≡ true
        → l.nodes_synced ≡ true
        → Step l (record l { phase = ticking })
    cancel : Step l (record l { phase = stopped })
    tick : l.phase ≡ ticking → Step l (record l { spawned = l.spawned + 1 })
    skip : 0 < l.spawned → l.mutex ≡ true → Step l (record l { spawned = l.spawned - 1 })
    enter :
        0 < l.spawned
        → l.mutex ≡ false
        → Step l (record l { spawned = l.spawned - 1; mutex = true; entered = l.entered + 1 })
    body :
        (env : Env Q) (course : Course Q)
        → 0 < l.entered
        → Step l (record l {
          entered = l.entered - 1;
          leaving = l.leaving + 1;
          world = iterate env course l.world;
        })
    leave : 0 < l.leaving → Step l (record l { mutex = false; leaving = l.leaving - 1 })

  pub data Reach (l : Loop Q W) : Loop Q W → Type 0 where
    here : Reach l l
    next : {k j : Loop Q W} → Reach l k → Step k j → Reach l j
