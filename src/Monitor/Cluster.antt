-- ===== src/Monitor/Cluster.antt =====
-- The writers and readers of `ClusterState` (autoscaler/pkg/monitor/cluster_state.go).
pub mod Usage
pub mod Totals
use kubto.Prelude.{
  ℕ, Bool, true, false, not, ◌&&◌, Option, none, some, List, [], ◌∷◌, ◌++◌, map, String, str_eq,
  Assoc, lookup, insert, length, select, if◌then◌else◌,
}
use kubto.Platform.{Quantity}
use kubto.Monitor.Types.{PodInfo, NodeInfo, ClusterState}

-- cpuMap and memMap of `recomputeNodeUsageLocked`.
pub record UsageMaps (Q : Type 0) : Type 0 where
  pub cpu : Assoc Q
  pub mem : Assoc Q

abbrev pub is_nil {ℓ} : {A : Type ℓ} → List A → Bool
is_nil [] = true
is_nil (x ∷ xs) = false

module _ {Q : Type 0} ⦃q : Quantity Q⦄ where
  -- `m[k].Add(v)`, on an entry that is there.
  abbrev pub add_at : String → Q → Assoc Q → Assoc Q
  add_at k v m = elim (lookup k m) [ none ↦ m | some w ↦ insert k (q.add w v) m ]

  -- The entry check on cpuMap covers both maps.
  unfoldable open_entry : String → UsageMaps Q → UsageMaps Q
  open_entry k u = elim (lookup k u.cpu) [
    | none ↦ record {
      cpu = insert k (q.new_milli_quantity 0) u.cpu;
      mem = insert k (q.new_quantity 0) u.mem;
    }
    | some _ ↦ u
  ]

  unfoldable pub add_pod : UsageMaps Q → PodInfo Q → UsageMaps Q
  unfolding open_entry
  add_pod u p =
      if str_eq p.node_name ""
      then u
      else let v = open_entry p.node_name u in
        record {
          cpu = add_at p.node_name p.cpu_request v.cpu;
          mem = add_at p.node_name p.memory_request v.mem;
        }

  unfoldable pub usage_from : UsageMaps Q → List (PodInfo Q) → UsageMaps Q
  unfolding add_pod
  usage_from u [] = u
  usage_from u (p ∷ ps) = usage_from (add_pod u p) ps

  abbrev pub or_else : Option Q → Q → Q
  or_else none d = d
  or_else (some v) d = v

  abbrev pub write_usage : UsageMaps Q → NodeInfo Q → NodeInfo Q
  write_usage u n = record n {
    used_cpu = or_else (lookup n.name u.cpu) (q.new_milli_quantity 0);
    used_memory = or_else (lookup n.name u.mem) (q.new_quantity 0);
  }

  unfoldable pub recompute_node_usage : ClusterState Q → ClusterState Q
  unfolding usage_from
  recompute_node_usage s =
      if is_nil s.scheduled_pods
      then s
      else let u = usage_from (record { cpu = []; mem = [] }) s.scheduled_pods in
        record s { nodes = map (write_usage u) s.nodes }

  unfoldable set_scheduled_pods : List (PodInfo Q) → ClusterState Q → ClusterState Q
  set_scheduled_pods pods s = recompute_node_usage (record s { scheduled_pods = pods })

  unfoldable pub set_pods : List (PodInfo Q) → List (PodInfo Q) → ClusterState Q → ClusterState Q
  set_pods pending scheduled s =
      recompute_node_usage (record s { pending_pods = pending; scheduled_pods = scheduled })

  unfoldable pub set_nodes : List (NodeInfo Q) → ClusterState Q → ClusterState Q
  set_nodes nodes s =
      let t = record s { nodes = nodes } in
      if is_nil s.scheduled_pods then t else recompute_node_usage t

  -- The usage of the entry that is replaced is kept where the new one supplies none.
  abbrev pub keep_usage : NodeInfo Q → NodeInfo Q → NodeInfo Q
  keep_usage node n = record node {
    used_cpu =
        if q.is_zero node.used_cpu && not (q.is_zero n.used_cpu) then n.used_cpu else node.used_cpu;
    used_memory =
        if q.is_zero node.used_memory && not (q.is_zero n.used_memory)
        then n.used_memory
        else node.used_memory;
  }

  -- The loop of `UpdateNode`, with the append for a name that is not found.
  unfoldable pub put_node : NodeInfo Q → List (NodeInfo Q) → List (NodeInfo Q)
  put_node node [] = node ∷ []
  put_node node (n ∷ ns) =
      if str_eq n.name node.name then keep_usage node n ∷ ns else n ∷ put_node node ns

  unfoldable pub update_node : NodeInfo Q → ClusterState Q → ClusterState Q
  update_node node s =
      let t = record s { nodes = put_node node s.nodes } in
      if is_nil s.scheduled_pods then t else recompute_node_usage t

  -- The loop of the four totals: a sum over the nodes that pass a test.
  unfoldable pub sum_over : (NodeInfo Q → Bool) → (NodeInfo Q → Q) → Q → List (NodeInfo Q) → Q
  sum_over test amount_of total [] = total
  sum_over test amount_of total (n ∷ ns) =
      sum_over test amount_of (if test n then q.add total (amount_of n) else total) ns

  unfoldable total_allocatable_cpu : ClusterState Q → Q
  unfolding sum_over
  total_allocatable_cpu s =
      sum_over (λ n. n.ready && not n.unschedulable) (λ n. n.allocatable_cpu) q.empty s.nodes

  unfoldable total_allocatable_memory : ClusterState Q → Q
  unfolding sum_over
  total_allocatable_memory s =
      sum_over (λ n. n.ready && not n.unschedulable) (λ n. n.allocatable_memory) q.empty s.nodes

  unfoldable pub total_used_cpu : ClusterState Q → Q
  unfolding sum_over
  total_used_cpu s = sum_over (λ n. true) (λ n. n.used_cpu) q.empty s.nodes

  unfoldable pub total_used_memory : ClusterState Q → Q
  unfolding sum_over
  total_used_memory s = sum_over (λ n. true) (λ n. n.used_memory) q.empty s.nodes

module _ {Q : Type 0} where
  unfoldable pub set_pending_pods : List (PodInfo Q) → ClusterState Q → ClusterState Q
  set_pending_pods pods s = record s { pending_pods = pods }

  unfoldable pub remove_node : String → ClusterState Q → ClusterState Q
  remove_node name s = record s { nodes = select (λ n. not (str_eq n.name name)) s.nodes }
