-- ===== src/Monitor/Sharing/Writers.antt =====
-- The writers do with the arrays what they do with values, and write to the array of the nodes or
-- to a new one.
use kubto.Prelude.{
  ℕ, ◌≤◌, ◌<◌, ◌≡◌, ◌≢◌, refl, sym, ap, ◌∙◌, ◌⊎◌, inl, inr, none, some, List, [], ◌∷◌, ◌++◌, String,
  str_eq, length, modify, length-modify, Bool-cases, Option-cases, arith,
}
use kubto.Platform.{Quantity}
use kubto.Monitor.Types.{NodeInfo, ClusterState}
use kubto.Monitor.Cluster.{
  is_nil, write_usage, usage_from, keep_usage, recompute_node_usage, set_pods, put_node,
  update_node, remove_node,
}
use kubto.Monitor.Arrays.{
  Slice, take, contents, map_first, take-map_first, length-map_first, take-modify, store_other,
  store_same, append_one-contents, append_one-places,
}
use kubto.Monitor.Sharing.{
  SharedState, state_of, shared_remove_node, index_of, shared_recompute, shared_set_pods,
  shared_update_node,
}
use kubto.Monitor.Sharing.Filter.{filter_from_lem}

module _ {Q : Type 0} where
  -- The slice of the nodes lies within an array that is there.
  abbrev pub Fits : SharedState Q → Type 0
  Fits m =
      (m.nodes.len ≤ length (m.node_arrays.cells m.nodes.array))
      × (m.nodes.array < m.node_arrays.next)

  -- From `m` to `t`: the slices show the state `s`; of the arrays that were there, only that of the
  -- nodes may have changed; and the nodes are in that array or in a new one.
  abbrev pub Writes : SharedState Q → SharedState Q → ClusterState Q → Type 0
  Writes m t s =
      (state_of t ≡ s)
      × Fits t
      × (t.pod_arrays ≡ m.pod_arrays)
      × ((j : ℕ)
          → j < m.node_arrays.next
          → j ≢ m.nodes.array
          → t.node_arrays.cells j ≡ m.node_arrays.cells j)
      × ((t.nodes.array ≡ m.nodes.array) ⊎ (m.node_arrays.next ≤ t.nodes.array))
      × (m.node_arrays.next ≤ t.node_arrays.next)

  abbrev put_nodes : ClusterState Q → List (NodeInfo Q) → ClusterState Q
  put_nodes s ns = record s { nodes = ns }

  pub remove-Writes :
      (name : String) (m : SharedState Q)
      → Fits m
      → Writes m (shared_remove_node name m) (remove_node name (state_of m))
  unfolding shared_remove_node remove_node
  remove-Writes name m (fits, there) =
      let a = m.nodes.array in
      let (shown, in_array, within, others, kept) =
        filter_from_lem a m.nodes.len 0 0 name m.node_arrays (m.node_arrays.cells a) refl
          (omega arith) (omega arith) in
      (
        ap (put_nodes (state_of m)) shown,
        (rw in_array within, rw (in_array, kept) there),
        refl,
        λ j under d. others j d,
        inl in_array,
        rw kept (omega arith),
      )

module _ {Q : Type 0} ⦃q : Quantity Q⦄ where
  recompute-Writes :
      (m : SharedState Q)
      → Fits m
      → Writes m (shared_recompute m) (recompute_node_usage (state_of m))
  unfolding shared_recompute recompute_node_usage
  recompute-Writes m (fits, there) =
      let a = m.nodes.array in
      let xs = m.node_arrays.cells a in
      let scheduled = contents m.pod_arrays m.scheduled_pods in
      let f = write_usage (usage_from (record { cpu = []; mem = [] }) scheduled) in
      let same = store_same a (map_first m.nodes.len f xs) m.node_arrays in
      elim (Bool-cases (is_nil scheduled)) [
        | inl e ↦ rw e (refl, (fits, there), refl, λ j under d. refl, inl refl, omega arith)
        | inr e ↦ rw e (
          ap (put_nodes (state_of m))
              (ap (take m.nodes.len) same ∙ take-map_first m.nodes.len f xs),
          (rw (same, length-map_first m.nodes.len f xs) fits, there),
          refl,
          λ j under d. store_other a j (map_first m.nodes.len f xs) m.node_arrays d,
          inl refl,
          omega arith,
        )
      ]

  pub set_pods-Writes :
      (pending scheduled : Slice) (m : SharedState Q)
      → Fits m
      → Writes m
          (shared_set_pods pending scheduled m)
          (set_pods (contents m.pod_arrays pending) (contents m.pod_arrays scheduled) (state_of m))
  unfolding shared_set_pods set_pods
  set_pods-Writes pending scheduled m fits =
      recompute-Writes (record m { pending_pods = pending; scheduled_pods = scheduled }) fits

  index_of-put_node :
      (node : NodeInfo Q) (ns : List (NodeInfo Q))
      → put_node node ns ≡ elim (index_of node.name ns) [
        | none ↦ ns ++ node ∷ []
        | some i ↦ modify ns i (keep_usage node)
      ]
  unfolding put_node
  index_of-put_node node [] = refl
  index_of-put_node node (n ∷ ns) = elim (Bool-cases (str_eq n.name node.name)) [
    | inl e ↦ rw (put_node, e) refl
    | inr e ↦ elim (Option-cases (index_of node.name ns)) [
      | inl f ↦ rw (put_node, e, f) (ap (λ t. n ∷ t) (rw f at (index_of-put_node node ns)))
      | inr (i, f) ↦ rw (put_node, e, f) (ap (λ t. n ∷ t) (rw f at (index_of-put_node node ns)))
    ]
  ]

  -- `UpdateNode` tests twice whether a pod is scheduled.
  update_node_lem :
      (node : NodeInfo Q) (s : ClusterState Q)
      → update_node node s ≡ recompute_node_usage (record s { nodes = put_node node s.nodes })
  unfolding update_node recompute_node_usage
  update_node_lem node s = elim (Bool-cases (is_nil s.scheduled_pods)) [
    | inl e ↦ rw e refl
    | inr e ↦ rw e refl
  ]

  -- A write, and then one that keeps to the pods and the node's array.
  pub then-Writes :
      (m t u : SharedState Q) (s : ClusterState Q) (f : ClusterState Q → ClusterState Q)
      → Writes m t s
      → (Fits t → Writes t u (f (state_of t)))
      → Writes m u (f s)
  then-Writes m t u s f (shown, fits, pods, others, place, grows) next =
      let (shown2, fits2, pods2, others2, place2, grows2) = next fits in
      (
        shown2 ∙ ap f shown,
        fits2,
        pods2 ∙ pods,
        λ j under d.
            others2 j (omega arith)
              (elim place [ inl same ↦ λ e. d (e ∙ same) | inr new ↦ λ e. absurd (omega arith) ])
            ∙ others j under d,
        elim place2 [
          | inr new ↦ inr (omega arith)
          | inl same2 ↦ elim place [ inl same ↦ inl (same2 ∙ same) | inr new ↦ inr (rw same2 new) ]
        ],
        omega arith,
      )

  pub update-Writes :
      (spare : List (NodeInfo Q)) (node : NodeInfo Q) (m : SharedState Q)
      → Fits m
      → Writes m (shared_update_node spare node m) (update_node node (state_of m))
  unfolding shared_update_node
  update-Writes spare node m (fits, there) =
      let a = m.nodes.array in
      let xs = m.node_arrays.cells a in
      let ns = contents m.node_arrays m.nodes in
      let put = index_of-put_node node ns in
      elim (Option-cases (index_of node.name ns)) [
        | inl absent ↦
            let (within, at, others, place, grows) =
              append_one-places spare node m.nodes m.node_arrays fits there in
            rw (absent, update_node_lem node (state_of m))
              (then-Writes m _ _ _ recompute_node_usage
                (
                  ap (put_nodes (state_of m)) (
                      append_one-contents spare node m.nodes m.node_arrays fits
                      ∙ sym (rw absent at put)),
                  (within, at),
                  refl,
                  others,
                  place,
                  grows,
                )
                (recompute-Writes _))
        | inr (i, found) ↦
            let ys = modify xs i (keep_usage node) in
            let same = store_same a ys m.node_arrays in
            rw (found, update_node_lem node (state_of m))
              (then-Writes m _ _ _ recompute_node_usage
                (
                  ap (put_nodes (state_of m)) (
                      ap (take m.nodes.len) same
                      ∙ (take-modify m.nodes.len i (keep_usage node) xs ∙ sym (rw found at put))),
                  (rw (same, length-modify xs i (keep_usage node)) fits, there),
                  refl,
                  λ j under d. store_other a j ys m.node_arrays d,
                  inl refl,
                  omega arith,
                )
                (recompute-Writes _))
      ]
