-- ===== src/Monitor/Cluster/Usage.antt =====
-- Node usage after `recomputeNodeUsageLocked` (autoscaler/pkg/monitor/cluster_state.go), against
-- the sum of the requests of the pods that are bound to the node.
use kubto.Prelude.{
  ◌≡◌, refl, ◌⊎◌, inl, inr, Bool, false, not, ◌&&◌, Option, none, some, List, [], ◌∷◌, map, String,
  str_eq, str_eq_iff, Assoc, lookup, insert, lookup-insert, select, if◌then◌else◌, All, Bool-cases,
  arith,
}
use kubto.Platform.{Quantity}
use kubto.Monitor.Types.{PodInfo, NodeInfo, ClusterState}
use kubto.Monitor.Cluster.{
  UsageMaps, is_nil, add_at, add_pod, usage_from, or_else, write_usage, recompute_node_usage,
}

-- The pod counts towards the usage of the node of this name.
abbrev pub is_bound : {Q : Type 0} → String → PodInfo Q → Bool
is_bound name p = not (str_eq p.node_name "") && str_eq p.node_name name

module _ {Q : Type 0} ⦃q : Quantity Q⦄ where
  abbrev pub sum : Q → List Q → Q
  sum acc [] = acc
  sum acc (x ∷ xs) = sum (q.add acc x) xs

  -- What the usage of a node is meant to be.
  abbrev cpu_on : String → List (PodInfo Q) → Q
  cpu_on name pods =
      sum (q.new_milli_quantity 0) (map (λ p. p.cpu_request) (select (is_bound name) pods))

  abbrev memory_on : String → List (PodInfo Q) → Q
  memory_on name pods =
      sum (q.new_quantity 0) (map (λ p. p.memory_request) (select (is_bound name) pods))

  abbrev grow : Q → Option Q → Q → Option Q
  grow zero o x = some (q.add (or_else o zero) x)

  -- An entry that is opened at `z` and then grows by `c`.
  lookup-add_at_new :
      (n k : String) (z c : Q) (m : Assoc Q)
      → lookup n m ≡ none
      → lookup k (add_at n c (insert n z m))
        ≡ (if str_eq n k then grow z (lookup k m) c else lookup k m)
  lookup-add_at_new n k z c m h = ground (
    arith,
    lookup-insert n n z m,
    str_eq_iff n n,
    str_eq_iff n k,
    lookup-insert n k (q.add z c) (insert n z m),
    lookup-insert n k z m,
  )

  lookup-add_at_old :
      (n k : String) (z c w : Q) (m : Assoc Q)
      → lookup n m ≡ some w
      → lookup k (add_at n c m) ≡ (if str_eq n k then grow z (lookup k m) c else lookup k m)
  lookup-add_at_old n k z c w m h = ground (arith, str_eq_iff n k, lookup-insert n k (q.add w c) m)

  -- The keys of the two maps are the same.
  abbrev SameKeys : UsageMaps Q → Type 0
  SameKeys u =
      (k : String)
      → ((lookup k u.cpu ≡ none) × (lookup k u.mem ≡ none))
        ⊎ ((v : Q) × (w : Q) × (lookup k u.cpu ≡ some v) × (lookup k u.mem ≡ some w))

  abbrev cpu_zero : Q
  cpu_zero = q.new_milli_quantity 0

  abbrev memory_zero : Q
  memory_zero = q.new_quantity 0

  module _ (u : UsageMaps Q) (same : SameKeys u) (p : PodInfo Q) (k : String) where
    add_pod-cpu :
        lookup k (add_pod u p).cpu
        ≡ (if is_bound k p then grow cpu_zero (lookup k u.cpu) p.cpu_request else lookup k u.cpu)
    unfolding add_pod
    add_pod-cpu = elim (same p.node_name) [
      | inl (a, b) ↦ ground (arith, lookup-add_at_new p.node_name k cpu_zero p.cpu_request u.cpu a)
      | inr (v, w, a, b) ↦
          ground (arith, lookup-add_at_old p.node_name k cpu_zero p.cpu_request v u.cpu a)
    ]

    add_pod-mem : lookup k (add_pod u p).mem ≡ (
        if is_bound k p then grow memory_zero (lookup k u.mem) p.memory_request else lookup k u.mem)
    unfolding add_pod
    add_pod-mem = elim (same p.node_name) [
      | inl (a, b) ↦
          ground (arith, a, lookup-add_at_new p.node_name k memory_zero p.memory_request u.mem b)
      | inr (v, w, a, b) ↦
          ground (arith, a, lookup-add_at_old p.node_name k memory_zero p.memory_request w u.mem b)
    ]

  add_pod-SameKeys : (u : UsageMaps Q) (p : PodInfo Q) → SameKeys u → SameKeys (add_pod u p)
  add_pod-SameKeys u p same k = elim (Bool-cases (is_bound k p)) [
    | inl bound ↦ inr (
      q.add (or_else (lookup k u.cpu) cpu_zero) p.cpu_request,
      q.add (or_else (lookup k u.mem) memory_zero) p.memory_request,
      ground (arith, add_pod-cpu u same p k),
      ground (arith, add_pod-mem u same p k),
    )
    | inr free ↦ elim (same k) [
      | inl (a, b) ↦
          inl (ground (arith, add_pod-cpu u same p k), ground (arith, add_pod-mem u same p k))
      | inr (v, w, a, b) ↦
          inr (v, w, ground (arith, add_pod-cpu u same p k), ground (arith, add_pod-mem u same p k))
    ]
  ]

  usage_from-cpu :
      (u : UsageMaps Q) (ps : List (PodInfo Q)) (k : String)
      → SameKeys u
      → or_else (lookup k (usage_from u ps).cpu) cpu_zero
        ≡ sum
            (or_else (lookup k u.cpu) cpu_zero)
            (map (λ p. p.cpu_request) (select (is_bound k) ps))
  unfolding usage_from
  usage_from-cpu u [] k same = refl
  usage_from-cpu u (p ∷ ps) k same =
      ground (
        arith,
        usage_from-cpu (add_pod u p) ps k (add_pod-SameKeys u p same),
        add_pod-cpu u same p k,
      )

  usage_from-mem :
      (u : UsageMaps Q) (ps : List (PodInfo Q)) (k : String)
      → SameKeys u
      → or_else (lookup k (usage_from u ps).mem) memory_zero
        ≡ sum
            (or_else (lookup k u.mem) memory_zero)
            (map (λ p. p.memory_request) (select (is_bound k) ps))
  unfolding usage_from
  usage_from-mem u [] k same = refl
  usage_from-mem u (p ∷ ps) k same =
      ground (
        arith,
        usage_from-mem (add_pod u p) ps k (add_pod-SameKeys u p same),
        add_pod-mem u same p k,
      )

  -- The node's usage is the sum over the scheduled pods that are bound to it.
  abbrev pub IsExact : List (PodInfo Q) → NodeInfo Q → Type 0
  IsExact pods n = (n.used_cpu ≡ cpu_on n.name pods) × (n.used_memory ≡ memory_on n.name pods)

  write_usage-IsExact :
      (pods : List (PodInfo Q)) (ns : List (NodeInfo Q))
      → All (IsExact pods) (map (write_usage (usage_from (record { cpu = []; mem = [] }) pods)) ns)
  write_usage-IsExact pods [] = tt
  write_usage-IsExact pods (n ∷ ns) = (
    (
      usage_from-cpu (record { cpu = []; mem = [] }) pods n.name (λ k. inl (refl, refl)),
      usage_from-mem (record { cpu = []; mem = [] }) pods n.name (λ k. inl (refl, refl)),
    ),
    write_usage-IsExact pods ns,
  )

  -- After a recomputation with at least one scheduled pod every node's usage is exact.
  pub recompute-IsExact :
      (s : ClusterState Q)
      → is_nil s.scheduled_pods ≡ false
      → All (IsExact s.scheduled_pods) (recompute_node_usage s).nodes
  unfolding recompute_node_usage
  recompute-IsExact s h = rw h (write_usage-IsExact s.scheduled_pods s.nodes)
