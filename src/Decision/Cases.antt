-- ===== src/Decision/Cases.antt =====
-- Which of its three answers the policy gives.
use kubto.Prelude.{
  ℕ, ◌≤◌, ◌<◌, ◌≡◌, ◌≢◌, refl, sym, ◌↔◌, inl, inr, true, false, List, [], ◌∷◌, ◌++◌, String,
  str_eq_iff, length, All, arith, Bool-cases, IsNat64, lt64-lt, le64-le, le64, sub_time, ap, subst,
}
use kubto.Platform.{Quantity, Float64}
use kubto.Monitor.Types.{NodeInfo, ClusterState}
use kubto.Estimator.Packing.{ResourceDelta}
use kubto.Decision.{
  ThresholdPolicy, has_critical_pods, exceeds_threshold, utilisation, is_candidate,
  scale_down_candidate, evaluate,
}

module _ {Q F : Type 0} ⦃q : Quantity Q⦄ (fl : Float64 F) (p : ThresholdPolicy F) (now : ℕ) where
  -- The conditions under which a node may be removed.
  pub record IsEligible (n : NodeInfo Q) : Type 0 where
    pub ready : n.ready ≡ true
    pub schedulable : n.unschedulable ≡ false
    pub allocatable : q.milli_value n.allocatable_cpu ≢ 0
    pub idle : fl.ge (utilisation fl n) p.low_water_mark_percent ≡ false
    pub not_critical : has_critical_pods p n.name ≡ false
    pub old : le64 (sub_time now n.created_at) p.cooldown_period ≡ false

  is_candidate-IsEligible : (n : NodeInfo Q) → (is_candidate fl p now n ≡ true) ↔ IsEligible n
  unfolding is_candidate
  is_candidate-IsEligible n = ground arith

  -- The node is the first eligible one.
  abbrev pub FirstEligible : List (NodeInfo Q) → String → Type 0
  FirstEligible ns name =
      (before : List (NodeInfo Q)) × (n : NodeInfo Q) × (after : List (NodeInfo Q)) × (ns
        ≡ before ++ n ∷ after)
      × All (λ m. ¬ IsEligible m) before
      × IsEligible n
      × (name ≡ n.name)

  candidate-First :
      (ns : List (NodeInfo Q))
      → scale_down_candidate fl p now ns ≢ ""
      → FirstEligible ns (scale_down_candidate fl p now ns)
  unfolding scale_down_candidate
  candidate-First [] h = absurd (h refl)
  candidate-First (n ∷ ns) h = elim (Bool-cases (is_candidate fl p now n)) [
    | inl e ↦ rw e ([], n, ns, refl, tt, (is_candidate-IsEligible n).0 e, refl)
    | inr e ↦
        let (before, m, after, split, none, ok, name) = candidate-First ns (rw e at h) in
        rw e (
          n ∷ before,
          m,
          after,
          ap (◌∷◌ n) split,
          ((λ el. cc ((is_candidate-IsEligible n).1 el, e)), none),
          ok,
          name,
        )
  ]

  module _ (delta : ResourceDelta) (state : ClusterState Q) where
    -- With a limit and a number of nodes below 2 ^ 63, the policy scales up exactly when the
    -- shortfall exceeds a threshold and the number of nodes is below the limit.
    pub scale_up_iff :
        IsNat64 p.max_nodes
        → IsNat64 (length state.nodes)
        → ((evaluate fl p now delta state).scale_up ≡ true)
          ↔ ((exceeds_threshold p delta ≡ true) × (length state.nodes < p.max_nodes))
    unfolding evaluate
    scale_up_iff limit few = ground (arith, le64-le p.max_nodes (length state.nodes))

    module _ (least : IsNat64 p.min_nodes) (few : IsNat64 (length state.nodes)) where
      down_branch :
          (evaluate fl p now delta state).scale_down ≡ true
          → ((evaluate fl p now delta state).scale_up ≡ false)
            × (p.min_nodes < length state.nodes)
            × ((evaluate fl p now delta state).node_name
                ≡ scale_down_candidate fl p now state.nodes)
            × (scale_down_candidate fl p now state.nodes ≢ "")
      unfolding evaluate
      down_branch down = ground (
        arith,
        lt64-lt p.min_nodes (length state.nodes),
        str_eq_iff (scale_down_candidate fl p now state.nodes) "",
      )

      -- With a minimum and a number of nodes below 2 ^ 63, a policy that scales down does not scale
      -- up, the number of nodes is above the minimum, and the node to remove is the first eligible
      -- one.
      pub scale_down-First :
          (evaluate fl p now delta state).scale_down ≡ true
          → ((evaluate fl p now delta state).scale_up ≡ false)
            × (p.min_nodes < length state.nodes)
            × FirstEligible state.nodes (evaluate fl p now delta state).node_name
      scale_down-First down =
          let (no_up, above, named, found) = down_branch down in
          (
            no_up,
            above,
            subst (FirstEligible state.nodes) (sym named) (candidate-First state.nodes found),
          )

    -- With thresholds below 2 ^ 63, a shortfall that exceeds neither of them does not scale up.
    pub small_shortfall_ignored :
        IsNat64 p.cpu_threshold_millicores
        → IsNat64 p.memory_threshold_bytes
        → delta.cpu_millicores ≤ p.cpu_threshold_millicores
        → delta.memory_bytes ≤ p.memory_threshold_bytes
        → (evaluate fl p now delta state).scale_up ≡ false
    unfolding evaluate exceeds_threshold
    small_shortfall_ignored c m hc hm = ground (
      arith,
      lt64-lt p.cpu_threshold_millicores delta.cpu_millicores,
      lt64-lt p.memory_threshold_bytes delta.memory_bytes,
    )
