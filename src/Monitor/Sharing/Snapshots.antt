-- ===== src/Monitor/Sharing/Snapshots.antt =====
-- What `GetNodes` returns stays as it is, whatever the watchers write.
use kubto.Prelude.{◌≡◌, refl, ap, subst, ◌∙◌, inl, List, [], ◌∷◌, String, length, arith}
use kubto.Platform.{Quantity}
use kubto.Monitor.Types.{PodInfo, NodeInfo, ClusterState}
use kubto.Monitor.Cluster.{set_pods, update_node, remove_node}
use kubto.Monitor.Arrays.{
  Slice, Arrays, take, contents, copy_slice, take_all, store_other, store_same,
}
use kubto.Monitor.Sharing.{
  SharedState, state_of, get_nodes, shared_remove_node, shared_set_pods, shared_update_node,
}
use kubto.Monitor.Sharing.Writers.{
  Fits, Writes, remove-Writes, set_pods-Writes, update-Writes, then-Writes,
}

-- A call of a watcher; `updates` has what the runtime leaves in a new array.
pub data Write (Q : Type 0) : Type 0 where
  updates : List (NodeInfo Q) → NodeInfo Q → Write Q
  removes : String → Write Q
  sets_pods : (pending scheduled : Slice) → Write Q

module _ {Q : Type 0} ⦃q : Quantity Q⦄ where
  abbrev pub write : Write Q → SharedState Q → SharedState Q
  write (updates spare n) m = shared_update_node spare n m
  write (removes name) m = shared_remove_node name m
  write (sets_pods pending scheduled) m = shared_set_pods pending scheduled m

  -- The same call on values, with the pods that its slices show.
  abbrev write_value : Arrays (PodInfo Q) → Write Q → ClusterState Q → ClusterState Q
  write_value pods (updates spare n) s = update_node n s
  write_value pods (removes name) s = remove_node name s
  write_value pods (sets_pods pending scheduled) s =
      set_pods (contents pods pending) (contents pods scheduled) s

  abbrev pub write_all : List (Write Q) → SharedState Q → SharedState Q
  write_all [] m = m
  write_all (w ∷ ws) m = write_all ws (write w m)

  abbrev pub write_values : Arrays (PodInfo Q) → List (Write Q) → ClusterState Q → ClusterState Q
  write_values pods [] s = s
  write_values pods (w ∷ ws) s = write_values pods ws (write_value pods w s)

  write-Writes :
      (w : Write Q) (m : SharedState Q)
      → Fits m
      → Writes m (write w m) (write_value m.pod_arrays w (state_of m))
  write-Writes (updates spare n) m fits = update-Writes spare n m fits
  write-Writes (removes name) m fits = remove-Writes name m fits
  write-Writes (sets_pods pending scheduled) m fits = set_pods-Writes pending scheduled m fits

  write_all-Writes :
      (ws : List (Write Q)) (m : SharedState Q)
      → Fits m
      → Writes m (write_all ws m) (write_values m.pod_arrays ws (state_of m))
  write_all-Writes [] m fits = (refl, fits, refl, λ j under d. refl, inl refl, omega arith)
  write_all-Writes (w ∷ ws) m fits =
      let first = write-Writes w m fits in
      let t = write w m in
      let (_, _, pods, _, _, _) = first in
      then-Writes m t _ _ (write_values m.pod_arrays ws) first (λ fits2.
        subst (λ p. Writes t (write_all ws t) (write_values p ws (state_of t))) pods
          (write_all-Writes ws t fits2))

  -- The nodes that `GetNodes` returned are, after any calls of the watchers, what the state showed
  -- when it was called; and the state then shows what the same calls make of it as a value. The
  -- state's slice lies within its array.
  pub get_nodes-kept :
      (m : SharedState Q) (ws : List (Write Q))
      → Fits m
      → let (s, n) = get_nodes m in
        let t = write_all ws n in
        (contents t.node_arrays s ≡ (state_of m).nodes)
        × (state_of t ≡ write_values m.pod_arrays ws (state_of m))
  unfolding get_nodes copy_slice
  get_nodes-kept m ws (within, there) =
      let a = m.nodes.array in
      let h = m.node_arrays in
      let ns = contents h m.nodes in
      let (s, n) = get_nodes m in
      let other = store_other h.next a ns h (λ e. absurd (omega arith)) in
      let shows : (state_of n ≡ state_of m) =
        ap (λ xs. record (state_of m) { nodes = take m.nodes.len xs }) other in
      let (shown, _, _, others, _, _) = write_all-Writes ws n (rw other within, omega arith) in
      (
        ap (take (length ns))
              (others h.next (omega arith) (λ e. absurd (omega arith)) ∙ store_same h.next ns h)
            ∙ take_all ns,
        shown ∙ ap (write_values m.pod_arrays ws) shows,
      )
