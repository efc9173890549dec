-- ===== src/Monitor/Watchers.antt =====
-- autoscaler/pkg/monitor/pod_watcher.go and node_watcher.go: API objects become the entries of
-- `ClusterState`. Maps and slices are values here; `copyStringMap` and `copyTolerations`
-- (pod_resources.go) are in Monitor/Copies.
pub mod Invariant
pub mod Sorted
pub mod Latest
use kubto.Prelude.{
  ℕ, Bool, true, false, not, ◌&&◌, Option, none, some, List, [], ◌∷◌, ◌++◌, String, str_eq, ltb,
  if◌then◌else◌,
}
use kubto.Platform.{Quantity}
use kubto.Kube.{PodCondition, NodeCondition, Affinity, Pod, Node}
use kubto.Utils.{pod_pending, pod_succeeded, pod_failed, pod_scheduled, node_ready, condition_true}
use kubto.Monitor.Types.{PodInfo, NodeInfo, ClusterState}
use kubto.Monitor.Cluster.{set_pods, update_node, remove_node}
use kubto.Monitor.PodResources.{pod_effective_requests}

-- The reason and the message of the first PodScheduled condition.
unfoldable scheduled_condition : List PodCondition → String × String
scheduled_condition [] = ("", "")
scheduled_condition (c ∷ cs) =
    if str_eq c.type pod_scheduled then (c.reason, c.message) else scheduled_condition cs

unfoldable unsupported_affinity : Option Affinity → Bool × String
unsupported_affinity none = (false, "")
unsupported_affinity (some a) =
    if a.pod_affinity
    then (true, "podAffinity is unsupported")
    else if a.pod_anti_affinity
    then (true, "podAntiAffinity is unsupported")
    else if a.node_affinity && a.node_affinity_required
    then (true, "nodeAffinity required rules unsupported")
    else (false, "")

unfoldable unsupported : {Q : Type 0} → Pod Q → Bool × String
unfolding unsupported_affinity
unsupported pod =
    if ltb 0 pod.topology_spread_constraints
    then (true, "topologySpreadConstraints unsupported")
    else unsupported_affinity pod.affinity

unfoldable ready_condition : List NodeCondition → Bool
ready_condition [] = false
ready_condition (c ∷ cs) =
    if str_eq c.type node_ready then str_eq c.status condition_true else ready_condition cs

unfoldable pub is_ready : {Q : Type 0} → Node Q → Bool
unfolding ready_condition
is_ready node = ready_condition node.conditions

-- What the informer's store hands over: `none` is an object that is not a pod.
abbrev pub Item : Type 0 → Type 0
Item Q = Option (Pod Q)

-- What a delete event carries.
pub data Deleted (Q : Type 0) : Type 0 where
  node : Node Q → Deleted Q
  tombstone : Option (Node Q) → Deleted Q
  other : Deleted Q

-- One call of an informer's handler.
pub data Event (Q : Type 0) : Type 0 where
  pods_changed : List (Item Q) → Event Q
  node_changed : Node Q → Event Q
  node_deleted : Deleted Q → Event Q

abbrev pub is_pending : {Q : Type 0} → Pod Q → Bool
is_pending pod = str_eq pod.phase pod_pending

abbrev pub is_active : {Q : Type 0} → Pod Q → Bool
is_active pod =
    not (str_eq pod.node_name "")
    && not (str_eq pod.phase pod_succeeded)
    && not (str_eq pod.phase pod_failed)

module _ {Q : Type 0} ⦃q : Quantity Q⦄ where
  unfoldable pub pod_to_info : Option (Pod Q) → PodInfo Q
  unfolding scheduled_condition unsupported
  pod_to_info none = record {
    name = "";
    namespace = "";
    cpu_request = q.empty;
    memory_request = q.empty;
    status = "";
    condition_reason = "";
    condition_message = "";
    node_name = "";
    node_selector = [];
    tolerations = [];
    has_unsupported_constraints = false;
    unsupported_reason = "";
  }
  pod_to_info (some pod) =
      let (cpu, mem) = pod_effective_requests pod in
      let (reason, message) = scheduled_condition pod.conditions in
      let (bad, why) = unsupported pod in
      record {
        name = pod.name;
        namespace = pod.namespace;
        cpu_request = cpu;
        memory_request = mem;
        status = pod.phase;
        condition_reason = reason;
        condition_message = message;
        node_name = pod.node_name;
        node_selector = pod.node_selector;
        tolerations = pod.tolerations;
        has_unsupported_constraints = bad;
        unsupported_reason = why;
      }

  unfoldable pub node_to_info : Node Q → NodeInfo Q
  unfolding is_ready
  node_to_info n = record {
    name = n.name;
    allocatable_cpu = q.cpu_of n.allocatable;
    allocatable_memory = q.memory_of n.allocatable;
    used_cpu = q.new_milli_quantity 0;
    used_memory = q.new_quantity 0;
    ready = is_ready n;
    unschedulable = n.unschedulable;
    created_at = n.created_at;
    labels = n.labels;
    taints = n.taints;
  }

  -- The loop of `sync`: the pending and the scheduled pods so far.
  unfoldable pub sort_pods :
      List (PodInfo Q) → List (PodInfo Q) → List (Item Q) → List (PodInfo Q) × List (PodInfo Q)
  sort_pods pending scheduled [] = (pending, scheduled)
  sort_pods pending scheduled (none ∷ items) = sort_pods pending scheduled items
  sort_pods pending scheduled (some pod ∷ items) =
      let info = pod_to_info (some pod) in
      sort_pods (if is_pending pod then pending ++ info ∷ [] else pending)
        (if is_active pod then scheduled ++ info ∷ [] else scheduled) items

  unfoldable pub sync : List (Item Q) → ClusterState Q → ClusterState Q
  unfolding sort_pods
  sync items s = let (pending, scheduled) = sort_pods [] [] items in set_pods pending scheduled s

  unfoldable pub on_node_delete : Deleted Q → ClusterState Q → ClusterState Q
  on_node_delete (node n) s = remove_node n.name s
  on_node_delete (tombstone (some n)) s = remove_node n.name s
  on_node_delete (tombstone none) s = s
  on_node_delete other s = s

  -- AddFunc and UpdateFunc, for an object that is a node.
  unfoldable pub on_node_change : Node Q → ClusterState Q → ClusterState Q
  on_node_change n s = update_node (node_to_info n) s

  abbrev pub handle : ClusterState Q → Event Q → ClusterState Q
  handle s (pods_changed items) = sync items s
  handle s (node_changed n) = on_node_change n s
  handle s (node_deleted d) = on_node_delete d s

  abbrev pub handle_all : ClusterState Q → List (Event Q) → ClusterState Q
  handle_all s [] = s
  handle_all s (e ∷ es) = handle_all (handle s e) es
