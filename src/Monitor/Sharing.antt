-- ===== src/Monitor/Sharing.antt =====
-- `ClusterState` with the arrays behind its slices (autoscaler/pkg/monitor/cluster_state.go): which
-- writes go to which array, and what the getters copy.
pub mod Filter
pub mod Writers
pub mod Snapshots
use kubto.Prelude.{
  ℕ, zero, suc, ◌+◌, ◌==◌, Bool, true, false, not, ◌&&◌, Option, none, some, List, [], ◌∷◌, ◌++◌,
  map, String, str_eq, length, get_elem?, modify, if◌then◌else◌,
}
use kubto.Platform.{Quantity}
use kubto.Monitor.Types.{PodInfo, NodeInfo, ClusterState}
use kubto.Monitor.Cluster.{is_nil, write_usage, usage_from, keep_usage}
use kubto.Monitor.Arrays.{Slice, Arrays, contents, store, copy_slice, append_one, map_first}

pub record SharedState (Q : Type 0) : Type 0 where
  pub node_arrays : Arrays (NodeInfo Q)
  pub pod_arrays : Arrays (PodInfo Q)
  pub pending_pods : Slice
  pub scheduled_pods : Slice
  pub nodes : Slice

module _ {Q : Type 0} where
  -- What the slices show.
  abbrev pub state_of : SharedState Q → ClusterState Q
  state_of m = record {
    pending_pods = contents m.pod_arrays m.pending_pods;
    scheduled_pods = contents m.pod_arrays m.scheduled_pods;
    nodes = contents m.node_arrays m.nodes;
  }

  unfoldable pub get_nodes : SharedState Q → Slice × SharedState Q
  get_nodes m = let (s, h) = copy_slice m.nodes m.node_arrays in (s, record m { node_arrays = h })

  unfoldable get_pending_pods : SharedState Q → Slice × SharedState Q
  get_pending_pods m =
      let (s, h) = copy_slice m.pending_pods m.pod_arrays in (s, record m { pod_arrays = h })

  unfoldable get_scheduled_pods : SharedState Q → Slice × SharedState Q
  get_scheduled_pods m =
      let (s, h) = copy_slice m.scheduled_pods m.pod_arrays in (s, record m { pod_arrays = h })

  -- The loop of `RemoveNode`, for `count` more elements from index `i` on: `filtered` begins as
  -- `cs.Nodes[:0]`, in the array that the loop reads.
  unfoldable pub filter_from :
      (array name_count : ℕ)
      → ℕ
      → String
      → Slice
      → Arrays (NodeInfo Q)
      → Slice × Arrays (NodeInfo Q)
  filter_from array zero i name filtered h = (filtered, h)
  filter_from array (suc count) i name filtered h = elim (get_elem? (h.cells array) i) [
    | none ↦ (filtered, h)
    | some n ↦
        let (t, g) = append_one [] n filtered h in
        let kept = filter_from array count (suc i) name t g in
        let left = filter_from array count (suc i) name filtered h in
        if str_eq n.name name then left else kept
  ]

  unfoldable pub shared_remove_node : String → SharedState Q → SharedState Q
  unfolding filter_from
  shared_remove_node name m =
      let (s, h) =
        filter_from m.nodes.array m.nodes.len 0 name (record m.nodes { len = 0 }) m.node_arrays in
      record m { nodes = s; node_arrays = h }

  -- The index of the first node with this name.
  abbrev pub index_of : String → List (NodeInfo Q) → Option ℕ
  index_of name [] = none
  index_of name (n ∷ ns) =
      let later = index_of name ns in
      if str_eq n.name name then some 0 else elim later [ none ↦ none | some i ↦ some (suc i) ]

module _ {Q : Type 0} ⦃q : Quantity Q⦄ where
  -- The loop over `cs.Nodes` writes to each entry in its place.
  unfoldable pub shared_recompute : SharedState Q → SharedState Q
  shared_recompute m =
      let scheduled = contents m.pod_arrays m.scheduled_pods in
      let u = usage_from (record { cpu = []; mem = [] }) scheduled in
      let cells = map_first m.nodes.len (write_usage u) (m.node_arrays.cells m.nodes.array) in
      if is_nil scheduled
      then m
      else record m { node_arrays = store m.nodes.array cells m.node_arrays }

  unfoldable pub shared_set_pods : (pending scheduled : Slice) → SharedState Q → SharedState Q
  unfolding shared_recompute
  shared_set_pods pending scheduled m =
      shared_recompute (record m { pending_pods = pending; scheduled_pods = scheduled })

  -- The slice of the caller becomes the state's.
  unfoldable shared_set_nodes : Slice → SharedState Q → SharedState Q
  unfolding shared_recompute
  shared_set_nodes nodes m = shared_recompute (record m { nodes = nodes })

  unfoldable pub shared_update_node : List (NodeInfo Q) → NodeInfo Q → SharedState Q → SharedState Q
  unfolding shared_recompute
  shared_update_node spare node m =
      let a = m.nodes.array in
      let (s, h) = append_one spare node m.nodes m.node_arrays in
      shared_recompute (elim (index_of node.name (contents m.node_arrays m.nodes)) [
        | some i ↦ record m {
          node_arrays = store a (modify (m.node_arrays.cells a) i (keep_usage node)) m.node_arrays;
        }
        | none ↦ record m { nodes = s; node_arrays = h }
      ])
