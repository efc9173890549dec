-- ===== src/Controller/Seen.antt =====
-- The cluster state as each read of an iteration finds it, from the state at its start.
use kubto.Prelude.{List}
use kubto.Platform.{Quantity}
use kubto.Monitor.Types.{PodInfo, ClusterState}
use kubto.Monitor.Watchers.{handle_all}
use kubto.Detector.{detect_unschedulable_pods}
use kubto.Controller.Reconcile.{Course}

module _ {Q : Type 0} ⦃q : Quantity Q⦄ (course : Course Q) (start : ClusterState Q) where
  abbrev pub at_pods : ClusterState Q
  at_pods = handle_all start course.before_pods

  abbrev pub at_estimate : ClusterState Q
  at_estimate = handle_all at_pods course.before_estimate

  abbrev pub at_policy : ClusterState Q
  at_policy = handle_all at_estimate course.before_policy

  abbrev pub at_handler : ClusterState Q
  at_handler = handle_all at_policy course.before_handler

  abbrev pub at_search : ClusterState Q
  at_search = handle_all at_pods course.before_search

  -- The pods that wait for resources, as the iteration finds them.
  abbrev pub waiting : List (PodInfo Q)
  waiting = detect_unschedulable_pods at_pods.pending_pods
