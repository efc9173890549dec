-- ===== src/Monitor/Informers.antt =====
-- `NewPodWatcher` and `NewNodeWatcher` (autoscaler/pkg/monitor/pod_watcher.go and node_watcher.go):
-- what the informers call, and the pods' cache, which is client-go's and enters as a parameter.
pub mod Live
use kubto.Prelude.{some, List, [], ◌∷◌, map}
use kubto.Platform.{Quantity}
use kubto.Kube.{Pod, Node}
use kubto.Monitor.Types.{ClusterState}
use kubto.Monitor.Watchers.{Deleted, sync, on_node_change, on_node_delete}

-- The `cache.Store` that an informer fills.
pub record Store (Q S : Type 0) : Type 0 where
  pub put : Pod Q → S → S
  pub drop : Pod Q → S → S
  pub list : S → List (Pod Q)

-- Both watchers share one cluster state.
pub record Watchers (Q S : Type 0) : Type 0 where
  pub store : S
  pub state : ClusterState Q

abbrev pub new_watchers : {Q S : Type 0} → S → ClusterState Q → Watchers Q S
new_watchers empty state = record { store = empty; state = state }

-- What an informer learns from the API.
pub data Notice (Q : Type 0) : Type 0 where
  pod_added : Pod Q → Notice Q
  pod_updated : (old new : Pod Q) → Notice Q
  pod_deleted : Pod Q → Notice Q
  node_added : Node Q → Notice Q
  node_updated : (old new : Node Q) → Notice Q
  node_removed : Deleted Q → Notice Q

module _ {Q S : Type 0} ⦃q : Quantity Q⦄ (store : Store Q S) where
  -- `pw.sync()`, which each of the pods' handlers calls.
  unfoldable pub sync_store : Watchers Q S → Watchers Q S
  sync_store w = record w { state = sync (map some (store.list w.store)) w.state }

  -- The informer changes its cache, then calls the handler.
  unfoldable pub deliver : Notice Q → Watchers Q S → Watchers Q S
  unfolding sync_store
  deliver (pod_added p) w = sync_store (record w { store = store.put p w.store })
  deliver (pod_updated old new) w = sync_store (record w { store = store.put new w.store })
  deliver (pod_deleted p) w = sync_store (record w { store = store.drop p w.store })
  deliver (node_added n) w = record w { state = on_node_change n w.state }
  deliver (node_updated old new) w = record w { state = on_node_change new w.state }
  deliver (node_removed d) w = record w { state = on_node_delete d w.state }

  abbrev pub deliver_all : Watchers Q S → List (Notice Q) → Watchers Q S
  deliver_all w [] = w
  deliver_all w (n ∷ ns) = deliver_all (deliver n w) ns
