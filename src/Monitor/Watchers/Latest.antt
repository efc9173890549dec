-- ===== src/Monitor/Watchers/Latest.antt =====
-- What `ClusterState` says of the pods and of each node is what the informers reported last.
use kubto.Prelude.{
  ◌≡◌, refl, ap, ◌∙◌, Bool, Option, none, some, List, [], ◌∷◌, map, String, str_eq, str_eq_iff,
  select, not, Bool-cases, inl, inr, arith, if◌then◌else◌,
}
use kubto.Platform.{Quantity}
use kubto.Kube.{Pod, Node}
use kubto.Monitor.Types.{PodInfo, NodeInfo, ClusterState, new_cluster_state}
use kubto.Monitor.Cluster.{
  UsageMaps, is_nil, write_usage, recompute_node_usage, set_pods, put_node, update_node,
  remove_node,
}
use kubto.Monitor.Watchers.Sorted.{infos_of, sort_pods_lem}
use kubto.Monitor.Watchers.{
  Item, is_pending, is_active, Deleted, node, tombstone, other, node_to_info, sync, on_node_change,
  on_node_delete, Event, pods_changed, node_changed, node_deleted, handle_all,
}

module _ {Q : Type 0} ⦃q : Quantity Q⦄ where
  -- The pods that pass a test in the last report of pods, if there was one.
  abbrev pub reported_pods : (Pod Q → Bool) → List (PodInfo Q) → List (Event Q) → List (PodInfo Q)
  reported_pods test last [] = last
  reported_pods test last (pods_changed items ∷ es) = reported_pods test (infos_of test items) es
  reported_pods test last (node_changed n ∷ es) = reported_pods test last es
  reported_pods test last (node_deleted d ∷ es) = reported_pods test last es

  -- The name of a node that an event deletes.
  abbrev pub deleted_name : Deleted Q → Option String
  deleted_name (node n) = some n.name
  deleted_name (tombstone (some n)) = some n.name
  deleted_name (tombstone none) = none
  deleted_name other = none

  abbrev pub unless_named : String → Option String → Option (NodeInfo Q) → Option (NodeInfo Q)
  unless_named k none last = last
  unless_named k (some name) last = if str_eq name k then none else last

  -- The last report of the node with this name, unless it was deleted since.
  abbrev pub reported_node : String → Option (NodeInfo Q) → List (Event Q) → Option (NodeInfo Q)
  reported_node k last [] = last
  reported_node k last (pods_changed items ∷ es) = reported_node k last es
  reported_node k last (node_changed n ∷ es) =
      reported_node k (if str_eq n.name k then some (node_to_info n) else last) es
  reported_node k last (node_deleted d ∷ es) =
      reported_node k (unless_named k (deleted_name d) last) es

  -- An entry as the API reports it: without usage.
  abbrev pub without_usage : NodeInfo Q → NodeInfo Q
  without_usage n = record n { used_cpu = q.new_milli_quantity 0; used_memory = q.new_quantity 0 }

  -- The first entry with this name.
  abbrev pub node_named : String → List (NodeInfo Q) → Option (NodeInfo Q)
  node_named k [] = none
  node_named k (n ∷ ns) = if str_eq n.name k then some (without_usage n) else node_named k ns

  named-write_usage :
      (k : String) (u : UsageMaps Q) (ns : List (NodeInfo Q))
      → node_named k (map (write_usage u) ns) ≡ node_named k ns
  named-write_usage k u [] = refl
  named-write_usage k u (n ∷ ns) = rw (named-write_usage k u ns) refl

  named-recompute :
      (k : String) (s : ClusterState Q)
      → node_named k (recompute_node_usage s).nodes ≡ node_named k s.nodes
  unfolding recompute_node_usage
  named-recompute k s = elim (Bool-cases (is_nil s.scheduled_pods)) [
    | inl e ↦ rw e refl
    | inr e ↦ rw e (named-write_usage k _ s.nodes)
  ]

  named-put_node :
      (k : String) (n : NodeInfo Q) (ns : List (NodeInfo Q))
      → node_named k (put_node n ns)
        ≡ (if str_eq n.name k then some (without_usage n) else node_named k ns)
  unfolding put_node
  named-put_node k n [] = refl
  named-put_node k n (m ∷ ns) = elim (Bool-cases (str_eq m.name n.name)) [
    | inl e ↦ rw (put_node, e, (str_eq_iff m.name n.name).0 e) (ground arith)
    | inr e ↦
        rw (put_node, e, named-put_node k n ns)
          (ground (arith, str_eq_iff m.name k, str_eq_iff n.name k, str_eq_iff m.name n.name))
  ]

  named-select :
      (k name : String) (ns : List (NodeInfo Q))
      → node_named k (select (λ n. not (str_eq n.name name)) ns)
        ≡ (if str_eq name k then none else node_named k ns)
  named-select k name [] = ground arith
  named-select k name (n ∷ ns) = ground (
    arith,
    named-select k name ns,
    str_eq_iff n.name name,
    str_eq_iff n.name k,
    str_eq_iff name k,
  )

  -- A recomputation of the usage leaves the pods.
  recompute_pods :
      (s : ClusterState Q)
      → ((recompute_node_usage s).pending_pods ≡ s.pending_pods)
        × ((recompute_node_usage s).scheduled_pods ≡ s.scheduled_pods)
  unfolding recompute_node_usage
  recompute_pods s = ground arith

  -- The state shows these pods, and of the node with this name this entry.
  abbrev pub Shows :
      String → ClusterState Q → List (PodInfo Q) → List (PodInfo Q) → Option (NodeInfo Q) → Type 0
  Shows k s pending scheduled entry =
      (s.pending_pods ≡ pending) × (s.scheduled_pods ≡ scheduled) × (node_named k s.nodes ≡ entry)

  pub sync-Shows :
      (k : String) (items : List (Item Q)) (s : ClusterState Q)
      → Shows k
          (sync items s)
          (infos_of is_pending items)
          (infos_of is_active items)
          (node_named k s.nodes)
  unfolding sync set_pods
  sync-Shows k items s =
      let t = record s {
        pending_pods = infos_of is_pending items;
        scheduled_pods = infos_of is_active items;
      } in
      let (p, a) = recompute_pods t in rw (sort_pods_lem [] [] items) (p, a, named-recompute k t)

  pub change-Shows :
      (k : String) (n : Node Q) (s : ClusterState Q)
      → Shows k
          (on_node_change n s)
          s.pending_pods
          s.scheduled_pods
          (if str_eq n.name k then some (node_to_info n) else node_named k s.nodes)
  unfolding on_node_change update_node node_to_info
  change-Shows k n s =
      let info = node_to_info n in
      let t = record s { nodes = put_node info s.nodes } in
      let (p, a) = recompute_pods t in
      elim (Bool-cases (is_nil s.scheduled_pods)) [
        | inl e ↦ rw e (refl, refl, named-put_node k info s.nodes)
        | inr e ↦ rw e (p, a, named-recompute k t ∙ named-put_node k info s.nodes)
      ]

  pub delete-Shows :
      (k : String) (d : Deleted Q) (s : ClusterState Q)
      → Shows k
          (on_node_delete d s)
          s.pending_pods
          s.scheduled_pods
          (unless_named k (deleted_name d) (node_named k s.nodes))
  unfolding on_node_delete remove_node
  delete-Shows k (node n) s = (refl, refl, named-select k n.name s.nodes)
  delete-Shows k (tombstone (some n)) s = (refl, refl, named-select k n.name s.nodes)
  delete-Shows k (tombstone none) s = (refl, refl, refl)
  delete-Shows k other s = (refl, refl, refl)

  handle_all-Shows :
      (k : String) (es : List (Event Q)) (s : ClusterState Q) (pending scheduled : List (PodInfo Q))
      (entry : Option (NodeInfo Q))
      → Shows k s pending scheduled entry
      → Shows k
          (handle_all s es)
          (reported_pods is_pending pending es)
          (reported_pods is_active scheduled es)
          (reported_node k entry es)
  handle_all-Shows k [] s ps ss entry h = h
  handle_all-Shows k (pods_changed items ∷ es) s ps ss entry (hp, ha, hn) =
      let (p, a, n) = sync-Shows k items s in
      handle_all-Shows k es (sync items s) _ _ entry (p, a, n ∙ hn)
  handle_all-Shows k (node_changed m ∷ es) s ps ss entry (hp, ha, hn) =
      let (p, a, n) = change-Shows k m s in
      handle_all-Shows k es (on_node_change m s) ps ss _
        (p ∙ hp, a ∙ ha, n ∙ ap (λ x. if str_eq m.name k then some (node_to_info m) else x) hn)
  handle_all-Shows k (node_deleted d ∷ es) s ps ss entry (hp, ha, hn) =
      let (p, a, n) = delete-Shows k d s in
      handle_all-Shows k es (on_node_delete d s) ps ss _
        (p ∙ hp, a ∙ ha, n ∙ ap (unless_named k (deleted_name d)) hn)

  -- After any informer events from an empty state: the pending and the scheduled pods are, in
  -- order, those of the last report of pods that are pending, and that are bound to a node and not
  -- finished; and the entry of each node, but for its usage, is the last report of the node with
  -- this name, and there is none if there was no report or if the node was deleted since.
  pub watched-Shows :
      (k : String) (es : List (Event Q))
      → Shows k
          (handle_all (new_cluster_state Q) es)
          (reported_pods is_pending [] es)
          (reported_pods is_active [] es)
          (reported_node k none es)
  unfolding new_cluster_state
  watched-Shows k es = handle_all-Shows k es (new_cluster_state Q) [] [] none (refl, refl, refl)
