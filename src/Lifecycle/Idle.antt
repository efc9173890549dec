-- ===== src/Lifecycle/Idle.antt =====
-- `FindIdleNodes` and `nodeHasWorkloadPods` of autoscaler/pkg/lifecycle/idle_detector.go.
use kubto.Prelude.{
  ◌==◌, Bool, true, false, not, ◌||◌, Option, none, some, List, [], ◌∷◌, String, str_eq, any,
  if◌then◌else◌,
}
use kubto.Platform.{Quantity, Float64}
use kubto.Kube.{Pod}
use kubto.Monitor.Types.{NodeInfo}
use kubto.Lifecycle.Api.{Call, Env, Action}
use kubto.Lifecycle.Drain.{is_finished, is_daemon_set_pod, is_static_pod}

module _ {Q : Type 0} where
  unfoldable pub is_workload_pod : Pod Q → Bool
  is_workload_pod pod =
      if is_finished pod
      then false
      else if str_eq pod.namespace "kube-system"
      then false
      else if is_daemon_set_pod pod
      then false
      else if is_static_pod pod
      then false
      else if str_eq pod.priority_class_name "system-cluster-critical"
          || str_eq pod.priority_class_name "system-node-critical"
      then false
      else true

  abbrev pub workload_answer : Option (List (Pod Q)) → Option Bool
  workload_answer none = none
  workload_answer (some pods) = some (any is_workload_pod pods)

  -- `none` is an error of the list call.
  unfoldable pub node_has_workload_pods : Env Q → String → Action Q (Option Bool)
  node_has_workload_pods env name h =
      let answer = env.list_pods h name in
      (workload_answer answer, Call.listed_pods name answer ∷ h)

  -- The rest of the loop's round: an error or a workload skips the node.
  abbrev pub keep_idle : NodeInfo Q → Option Bool → List (NodeInfo Q) → List (NodeInfo Q)
  keep_idle n none rest = rest
  keep_idle n (some true) rest = rest
  keep_idle n (some false) rest = n ∷ rest

module _ {Q F : Type 0} ⦃q : Quantity Q⦄ (fl : Float64 F) where
  -- The tests of the loop of `FindIdleNodes` before the list call.
  unfoldable pub is_underused : F → NodeInfo Q → Bool
  is_underused threshold n =
      if not n.ready || n.unschedulable
      then false
      else if q.milli_value n.allocatable_cpu == 0
      then false
      else if fl.ge
          (fl.mul
            (fl.div (fl.of_int64 (q.milli_value n.used_cpu))
              (fl.of_int64 (q.milli_value n.allocatable_cpu)))
            (fl.of_int64 100))
          threshold
      then false
      else true

  unfoldable pub find_idle_nodes : F → Env Q → List (NodeInfo Q) → Action Q (List (NodeInfo Q))
  find_idle_nodes threshold env [] h = ([], h)
  find_idle_nodes threshold env (n ∷ ns) h =
      let skipped = find_idle_nodes threshold env ns h in
      let (has_workload, after) = node_has_workload_pods env n.name h in
      let (rest, last) = find_idle_nodes threshold env ns after in
      if is_underused threshold n then (keep_idle n has_workload rest, last) else skipped
