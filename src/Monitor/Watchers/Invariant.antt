-- ===== src/Monitor/Watchers/Invariant.antt =====
-- What holds of `ClusterState` whatever the informers report, in any order.
use kubto.Prelude.{
  ◌≡◌, sym, ◌≢◌, Bool, false, List, [], ◌∷◌, map, none, some, String, str_eq, str_eq_iff, select,
  All, Bool-cases, inl, inr, arith, subst,
}
use kubto.Platform.{Quantity}
use kubto.Monitor.Types.{PodInfo, NodeInfo, ClusterState, new_cluster_state}
use kubto.Monitor.Cluster.{
  UsageMaps, is_nil, write_usage, recompute_node_usage, set_pods, put_node, update_node,
  remove_node,
}
use kubto.Monitor.Cluster.Usage.{IsExact, recompute-IsExact}
use kubto.Monitor.Watchers.{
  node, tombstone, other, sync, sort_pods, on_node_change, on_node_delete, node_to_info, Event,
  pods_changed, node_changed, node_deleted, handle, handle_all,
}

module _ {Q : Type 0} where
  abbrev pub Absent : String → List (NodeInfo Q) → Type 0
  Absent k = All (λ n. n.name ≢ k)

  -- No two entries have one name.
  abbrev pub IsDistinct : List (NodeInfo Q) → Type 0
  IsDistinct [] = Unit {0}
  IsDistinct (n ∷ ns) = Absent n.name ns × IsDistinct ns

  select-Absent :
      (p : NodeInfo Q → Bool) (k : String) (ns : List (NodeInfo Q))
      → Absent k ns
      → Absent k (select p ns)
  select-Absent p k [] h = tt
  select-Absent p k (n ∷ ns) h = ground (arith, select-Absent p k ns)

  select-IsDistinct :
      (p : NodeInfo Q → Bool) (ns : List (NodeInfo Q)) → IsDistinct ns → IsDistinct (select p ns)
  select-IsDistinct p [] h = tt
  select-IsDistinct p (n ∷ ns) h = ground (arith, select-IsDistinct p ns, select-Absent p n.name ns)

  select-All {κ} :
      (P : NodeInfo Q → Type κ) (p : NodeInfo Q → Bool) (ns : List (NodeInfo Q))
      → All P ns
      → All P (select p ns)
  select-All P p [] h = tt
  select-All P p (n ∷ ns) h = elim (Bool-cases (p n)) [
    | inl e ↦ rw e (h.0, select-All P p ns h.1)
    | inr e ↦ rw e (select-All P p ns h.1)
  ]

module _ {Q : Type 0} ⦃q : Quantity Q⦄ where
  write_usage-Absent :
      (u : UsageMaps Q) (k : String) (ns : List (NodeInfo Q))
      → Absent k ns
      → Absent k (map (write_usage u) ns)
  write_usage-Absent u k [] h = tt
  write_usage-Absent u k (n ∷ ns) h = (h.0, write_usage-Absent u k ns h.1)

  write_usage-IsDistinct :
      (u : UsageMaps Q) (ns : List (NodeInfo Q))
      → IsDistinct ns
      → IsDistinct (map (write_usage u) ns)
  write_usage-IsDistinct u [] h = tt
  write_usage-IsDistinct u (n ∷ ns) h =
      (write_usage-Absent u n.name ns h.0, write_usage-IsDistinct u ns h.1)

  recompute-IsDistinct :
      (s : ClusterState Q) → IsDistinct s.nodes → IsDistinct (recompute_node_usage s).nodes
  unfolding recompute_node_usage
  recompute-IsDistinct s h = elim (Bool-cases (is_nil s.scheduled_pods)) [
    | inl e ↦ rw e h
    | inr e ↦ rw e (write_usage-IsDistinct _ s.nodes h)
  ]

  put_node-Absent :
      (n : NodeInfo Q) (k : String) (ns : List (NodeInfo Q))
      → n.name ≢ k
      → Absent k ns
      → Absent k (put_node n ns)
  unfolding put_node
  put_node-Absent n k [] d h = (d, tt)
  put_node-Absent n k (m ∷ ns) d h = elim (Bool-cases (str_eq m.name n.name)) [
    | inl e ↦ rw e (d, h.1)
    | inr e ↦ rw e (h.0, put_node-Absent n k ns d h.1)
  ]

  put_node-IsDistinct :
      (n : NodeInfo Q) (ns : List (NodeInfo Q)) → IsDistinct ns → IsDistinct (put_node n ns)
  unfolding put_node
  put_node-IsDistinct n [] h = (tt, tt)
  put_node-IsDistinct n (m ∷ ns) h = elim (Bool-cases (str_eq m.name n.name)) [
    | inl e ↦ rw e (subst (λ k. Absent k ns) ((str_eq_iff _ _).0 e) h.0, h.1)
    | inr e ↦ rw e (
      put_node-Absent n m.name ns (λ p. cc ((str_eq_iff _ _).1 (sym p), e)) h.0,
      put_node-IsDistinct n ns h.1,
    )
  ]

  -- The invariant: node names are distinct and, while a pod is scheduled, usage is exact.
  pub record Inv (s : ClusterState Q) : Type 0 where
    pub distinct : IsDistinct s.nodes
    pub exact : is_nil s.scheduled_pods ≡ false → All (IsExact s.scheduled_pods) s.nodes

  pub new-Inv : Inv (new_cluster_state Q)
  unfolding new_cluster_state
  new-Inv = record { distinct = tt; exact = λ _. tt }

  recompute-keeps_pods :
      (s : ClusterState Q) → (recompute_node_usage s).scheduled_pods ≡ s.scheduled_pods
  unfolding recompute_node_usage
  recompute-keeps_pods s = ground arith

  recompute-Inv : (s : ClusterState Q) → IsDistinct s.nodes → Inv (recompute_node_usage s)
  recompute-Inv s d = record {
    distinct = recompute-IsDistinct s d;
    exact =
        λ h. rw (recompute-keeps_pods s) (recompute-IsExact s (rw (recompute-keeps_pods s) at h));
  }

  set_pods-Inv :
      (pending scheduled : List (PodInfo Q)) (s : ClusterState Q)
      → Inv s
      → Inv (set_pods pending scheduled s)
  unfolding set_pods
  set_pods-Inv pending scheduled s v =
      recompute-Inv (record s { pending_pods = pending; scheduled_pods = scheduled }) v.distinct

  update_node-Inv : (n : NodeInfo Q) (s : ClusterState Q) → Inv s → Inv (update_node n s)
  unfolding update_node
  update_node-Inv n s v = elim (Bool-cases (is_nil s.scheduled_pods)) [
    | inl e ↦
        rw e
          (record { distinct = put_node-IsDistinct n s.nodes v.distinct; exact = λ h. cc (h, e) })
    | inr e ↦ rw e (
        recompute-Inv (record s { nodes = put_node n s.nodes })
          (put_node-IsDistinct n s.nodes v.distinct))
  ]

  remove_node-Inv : (k : String) (s : ClusterState Q) → Inv s → Inv (remove_node k s)
  unfolding remove_node
  remove_node-Inv k s v = record {
    distinct = select-IsDistinct _ s.nodes v.distinct;
    exact = λ h. select-All (IsExact s.scheduled_pods) _ s.nodes (v.exact h);
  }

  pub handle-Inv : (s : ClusterState Q) (e : Event Q) → Inv s → Inv (handle s e)
  unfolding sync on_node_change on_node_delete
  handle-Inv s (pods_changed items) v =
      set_pods-Inv (sort_pods [] [] items).0 (sort_pods [] [] items).1 s v
  handle-Inv s (node_changed n) v = update_node-Inv (node_to_info n) s v
  handle-Inv s (node_deleted (node n)) v = remove_node-Inv n.name s v
  handle-Inv s (node_deleted (tombstone (some n))) v = remove_node-Inv n.name s v
  handle-Inv s (node_deleted (tombstone none)) v = v
  handle-Inv s (node_deleted other) v = v

  pub handle_all-Inv : (s : ClusterState Q) (es : List (Event Q)) → Inv s → Inv (handle_all s es)
  handle_all-Inv s [] v = v
  handle_all-Inv s (e ∷ es) v = handle_all-Inv (handle s e) es (handle-Inv s e v)

  -- After any sequence of informer events, starting from an empty state, node names are distinct
  -- and, while at least one pod is scheduled, the usage of every node is the sum of the requests
  -- of the scheduled pods that are bound to it.
  pub watched-Inv : (es : List (Event Q)) → Inv (handle_all (new_cluster_state Q) es)
  watched-Inv es = handle_all-Inv (new_cluster_state Q) es new-Inv
