-- ===== src/Monitor/Cluster/Totals.antt =====
-- The totals of `ClusterState` (autoscaler/pkg/monitor/cluster_state.go) against the scheduled
-- pods.
use kubto.Prelude.{
  ℕ, ◌+◌, ◌≡◌, refl, Bool, true, false, List, [], ◌∷◌, map, String, str_eq_iff, any, select, All,
  Bool-cases, inl, inr, arith, if◌then◌else◌,
}
use kubto.Platform.{Quantity, Denotes}
use kubto.Monitor.Types.{PodInfo, NodeInfo, ClusterState}
use kubto.Monitor.Cluster.{is_nil, sum_over, total_used_cpu, total_used_memory}
use kubto.Monitor.Cluster.Usage.{is_bound, sum, IsExact}
use kubto.Monitor.Watchers.Invariant.{Absent, IsDistinct, Inv}

-- The pod is bound to one of the nodes.
abbrev pub is_on : {Q : Type 0} → List (NodeInfo Q) → PodInfo Q → Bool
is_on ns p = any (λ n. is_bound n.name p) ns

module _ {Q : Type 0} ⦃q : Quantity Q⦄ (amount : Q → ℕ) where
  -- What the pods that pass a test ask for.
  abbrev pub requested : (PodInfo Q → Q) → (PodInfo Q → Bool) → List (PodInfo Q) → ℕ
  requested f test [] = 0
  requested f test (p ∷ ps) = (if test p then amount (f p) else 0) + requested f test ps

  -- What the nodes use.
  abbrev used : (NodeInfo Q → Q) → List (NodeInfo Q) → ℕ
  used f [] = 0
  used f (n ∷ ns) = amount (f n) + used f ns

module _ {Q : Type 0} ⦃q : Quantity Q⦄ (amount : Q → ℕ) (d : Denotes amount) where
  sum_over-used :
      (f : NodeInfo Q → Q) (total : Q) (ns : List (NodeInfo Q))
      → amount (sum_over (λ n. true) f total ns) ≡ amount total + used amount f ns
  unfolding sum_over
  sum_over-used f total [] = omega arith
  sum_over-used f total (n ∷ ns) =
      omega (arith, sum_over-used f (q.add total (f n)) ns, d.amount-add total (f n))

  sum-requested :
      (f : PodInfo Q → Q) (test : PodInfo Q → Bool) (total : Q) (ps : List (PodInfo Q))
      → amount (sum total (map f (select test ps))) ≡ amount total + requested amount f test ps
  sum-requested f test total [] = omega arith
  sum-requested f test total (p ∷ ps) = elim (Bool-cases (test p)) [
    | inl e ↦
        rw e (omega (arith, sum-requested f test (q.add total (f p)) ps, d.amount-add total (f p)))
    | inr e ↦ rw e (omega (arith, sum-requested f test total ps))
  ]

  -- A pod that is bound to a node is bound to no node of another name.
  bound-once :
      (k : String) (ns : List (NodeInfo Q)) (p : PodInfo Q)
      → Absent k ns
      → is_bound k p ≡ true
      → is_on ns p ≡ false
  bound-once k [] p a b = refl
  bound-once k (n ∷ ns) p a b = ground (
    arith,
    bound-once k ns p a.1 b,
    a.0,
    str_eq_iff p.node_name k,
    str_eq_iff p.node_name n.name,
    str_eq_iff n.name k,
  )

  requested-cons :
      (f : PodInfo Q → Q) (n : NodeInfo Q) (ns : List (NodeInfo Q)) (ps : List (PodInfo Q))
      → Absent n.name ns
      → requested amount f (is_on (n ∷ ns)) ps
        ≡ requested amount f (is_bound n.name) ps + requested amount f (is_on ns) ps
  requested-cons f n ns [] a = omega arith
  requested-cons f n ns (p ∷ ps) a = elim (Bool-cases (is_bound n.name p)) [
    | inl e ↦ rw (e, bound-once n.name ns p a e) (omega (arith, requested-cons f n ns ps a))
    | inr e ↦ rw e (omega (arith, requested-cons f n ns ps a))
  ]

  requested-none :
      (f : PodInfo Q → Q) (ps : List (PodInfo Q)) → requested amount f (λ p. false) ps ≡ 0
  requested-none f [] = refl
  requested-none f (p ∷ ps) = omega (arith, requested-none f ps)

  used-requested :
      (g : NodeInfo Q → Q) (f : PodInfo Q → Q) (zero : Q) (ps : List (PodInfo Q))
      (ns : List (NodeInfo Q))
      → amount zero ≡ 0
      → IsDistinct ns
      → All (λ n. g n ≡ sum zero (map f (select (is_bound n.name) ps))) ns
      → used amount g ns ≡ requested amount f (is_on ns) ps
  used-requested g f zero ps [] z distinct exact = omega (arith, requested-none f ps)
  used-requested g f zero ps (n ∷ ns) z distinct exact = rw exact.0 (
      omega (
        arith,
        sum-requested f (is_bound n.name) zero ps,
        requested-cons f n ns ps distinct.0,
        used-requested g f zero ps ns z distinct.1 exact.1,
      ))

module _ {Q : Type 0} ⦃q : Quantity Q⦄ where
  cpu-exact :
      (ps : List (PodInfo Q)) (ns : List (NodeInfo Q))
      → All (IsExact ps) ns
      → All
          (λ n.
            n.used_cpu
            ≡ sum (q.new_milli_quantity 0) (map (λ p. p.cpu_request) (select (is_bound n.name) ps)))
          ns
  cpu-exact ps [] h = tt
  cpu-exact ps (n ∷ ns) h = (h.0.0, cpu-exact ps ns h.1)

  memory-exact :
      (ps : List (PodInfo Q)) (ns : List (NodeInfo Q))
      → All (IsExact ps) ns
      → All
          (λ n.
            n.used_memory
            ≡ sum (q.new_quantity 0) (map (λ p. p.memory_request) (select (is_bound n.name) ps)))
          ns
  memory-exact ps [] h = tt
  memory-exact ps (n ∷ ns) h = (h.0.1, memory-exact ps ns h.1)

module _ {Q : Type 0} ⦃q : Quantity Q⦄ (amount : Q → ℕ) (d : Denotes amount) where
  -- For quantities that denote numbers, in a state with distinct node names and exact usage, and at
  -- least one scheduled pod, the total usage in CPU and in memory is what the scheduled pods ask
  -- for that are bound to a node of the state: each is counted once, and no other pod is.
  pub totals-requested :
      (s : ClusterState Q)
      → Inv s
      → is_nil s.scheduled_pods ≡ false
      → (amount (total_used_cpu s)
          ≡ requested amount (λ p. p.cpu_request) (is_on s.nodes) s.scheduled_pods)
        × (amount (total_used_memory s)
            ≡ requested amount (λ p. p.memory_request) (is_on s.nodes) s.scheduled_pods)
  unfolding total_used_cpu total_used_memory
  totals-requested s v some_run = (
    omega (
      arith,
      d.amount-empty,
      sum_over-used amount d (λ n. n.used_cpu) q.empty s.nodes,
      used-requested amount d (λ n. n.used_cpu) (λ p. p.cpu_request) (q.new_milli_quantity 0)
          s.scheduled_pods s.nodes d.amount-new_milli_quantity v.distinct
          (cpu-exact s.scheduled_pods s.nodes (v.exact some_run)),
    ),
    omega (
      arith,
      d.amount-empty,
      sum_over-used amount d (λ n. n.used_memory) q.empty s.nodes,
      used-requested amount d (λ n. n.used_memory) (λ p. p.memory_request) (q.new_quantity 0)
          s.scheduled_pods s.nodes d.amount-new_quantity v.distinct
          (memory-exact s.scheduled_pods s.nodes (v.exact some_run)),
    ),
  )
