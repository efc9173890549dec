-- ===== src/Tests/Clusters.antt =====
-- The theorems on the cluster state and its watchers at concrete inputs.
use mathlib.Core.List.{Permᴰ}
use mathlib.Core.List.Permᴰ
use kubto.Kube.{Pod}
use kubto.Prelude.{ℕ, ◌≡◌, ◌≤◌, refl, none, some, List, [], ◌∷◌, arith}
use kubto.Monitor.Types.{new_cluster_state}
use kubto.Monitor.PodResources.{
  is_restartable_init_container, resource_cpu, resource_memory, pod_effective_requests,
}
use kubto.Monitor.PodResources.Effective.{
  effective, scheduled, SidecarsLast, requests-within_scheduled,
}
use kubto.Monitor.Watchers.{
  is_pending, is_active, Event, pods_changed, node_changed, node_deleted, Deleted, handle_all,
}
use kubto.Monitor.Watchers.Invariant.{Inv, watched-Inv}
use kubto.Monitor.Watchers.Latest.{Shows, reported_pods, reported_node, watched-Shows}
use kubto.Monitor.Informers.{
  Store, new_watchers, Notice, pod_added, pod_updated, pod_deleted, node_added, deliver_all,
}
use kubto.Monitor.Informers.Live.{without, live, IsStore, entries_of, delivered-Live}
use kubto.Tests.Instances.{itself, itself-Denotes, natural}
use kubto.Monitor.Arrays.{contents}
use kubto.Monitor.Sharing.{SharedState, state_of, get_nodes}
use kubto.Monitor.Sharing.Snapshots.{
  Write, updates, removes, sets_pods, write_all, write_values, get_nodes-kept,
}
use kubto.Tests.Fixtures.{api_pod, managed_node, half_used, ready_node, running_pod}

-- A node joins, two pods run on it and one waits, and an unknown node is deleted.
abbrev events : List (Event ℕ)
events =
    node_changed (managed_node "worker")
    ∷ pods_changed (
        some (api_pod "a" "Running" "worker" 100 200)
        ∷ some (api_pod "b" "Running" "worker" 300 400)
        ∷ none
        ∷ some (api_pod "c" "Pending" "" 5000 600)
        ∷ [])
    ∷ node_deleted (Deleted.node (managed_node "gone"))
    ∷ []

watched-Inv_example : Inv (handle_all (new_cluster_state ℕ) events)
watched-Inv_example = watched-Inv events

watched-Shows_example :
    Shows "worker"
      (handle_all (new_cluster_state ℕ) events)
      (reported_pods is_pending [] events)
      (reported_pods is_active [] events)
      (reported_node "worker" none events)
watched-Shows_example = watched-Shows "worker" events

half_used-Inv : Inv half_used
half_used-Inv = record { distinct = (tt, tt); exact = λ _. ((refl, refl), tt) }

requests-within_scheduled_example :
    let pod = api_pod "a" "Running" "worker" 100 200 in
    let r = pod_effective_requests pod in
    let cpu = scheduled itself resource_cpu pod in
    let mem = scheduled itself resource_memory pod in
    (r.0 ≤ cpu) × (r.1 ≤ mem) × (SidecarsLast pod.init_containers → (r.0 ≡ cpu) × (r.1 ≡ mem))
requests-within_scheduled_example =
    requests-within_scheduled itself itself-Denotes (api_pod "a" "Running" "worker" 100 200)

-- The large init container asks for more CPU than the container and the sidecar together.
effective_of_pod : effective itself resource_cpu (api_pod "a" "Running" "worker" 100 200) ≡ 900
unfolding is_restartable_init_container
effective_of_pod = refl

-- A regular init container after a sidecar: the code counts 900, Kubernetes 950.
abbrev sidecar_first : Pod ℕ
sidecar_first = record (api_pod "a" "Running" "worker" 100 200) {
  init_containers =
      record { requests = ("cpu", 50) ∷ []; restart_policy = some "Always" }
      ∷ record { requests = ("cpu", 900) ∷ []; restart_policy = none }
      ∷ [];
}

undercounted :
    (effective itself resource_cpu sidecar_first ≡ 900)
    × (scheduled itself resource_cpu sidecar_first ≡ 950)
unfolding is_restartable_init_container
undercounted = (refl, refl)

-- Three nodes fill their array, and one pod runs on the second.
abbrev three_nodes : SharedState ℕ
three_nodes = record {
  node_arrays = record {
    cells = λ k. ready_node "a" 0 0 ∷ ready_node "b" 1000 3000 ∷ ready_node "c" 0 0 ∷ [];
    next = 1;
  };
  pod_arrays = record { cells = λ k. running_pod "old" 1000 3000 "b" ∷ []; next = 1 };
  pending_pods = record { array = 0; len = 0 };
  scheduled_pods = record { array = 0; len = 1 };
  nodes = record { array = 0; len = 3 };
}

-- The removal moves the entries after it, and the array then has room for a new one.
abbrev writes : List (Write ℕ)
writes =
    removes "a"
    ∷ updates [] (ready_node "d" 0 0)
    ∷ sets_pods (record { array = 0; len = 1 }) (record { array = 0; len = 0 })
    ∷ updates [] (ready_node "e" 0 0)
    ∷ []

get_nodes-kept_example :
    let (s, n) = get_nodes three_nodes in
    let t = write_all writes n in
    (contents t.node_arrays s ≡ (state_of three_nodes).nodes)
    × (state_of t ≡ write_values three_nodes.pod_arrays writes (state_of three_nodes))
get_nodes-kept_example = get_nodes-kept three_nodes writes (omega arith, omega arith)

-- A cache that lists the pods as they were put there, the newest first.
abbrev newest_first : Store ℕ (List (Pod ℕ))
newest_first = record { put = λ p s. p ∷ without p s; drop = without; list = λ s. s }

newest_first-IsStore : IsStore newest_first []
newest_first-IsStore = record {
  list-empty = refl;
  list-put = λ p s. Permᴰ.refl _;
  list-drop = λ p s. Permᴰ.refl _;
}

-- A pod waits and is then bound, and another comes and goes.
abbrev notices : List (Notice ℕ)
notices =
    pod_added (api_pod "a" "Pending" "" 100 200)
    ∷ node_added (managed_node "worker")
    ∷ pod_added (api_pod "b" "Pending" "" 300 400)
    ∷ pod_updated (api_pod "a" "Pending" "" 100 200) (api_pod "a" "Running" "worker" 100 200)
    ∷ pod_deleted (api_pod "b" "Pending" "" 300 400)
    ∷ []

delivered-Live_example :
    let w = deliver_all newest_first (new_watchers [] (new_cluster_state ℕ)) notices in
    Permᴰ w.state.pending_pods (entries_of is_pending (live [] notices))
    × Permᴰ w.state.scheduled_pods (entries_of is_active (live [] notices))
delivered-Live_example = delivered-Live newest_first [] newest_first-IsStore notices
