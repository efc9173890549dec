-- ===== src/Controller/Agreement.antt =====
-- The estimator and the policy agree: where both have one capacity, the estimate never lowers what
-- the policy asks for.
use native.Mathlib.Nat.{mul-le-mul_left, mul-le-mul_right}
use native.Mathlib.Decide.{dec_lt}
use kubto.Prelude.{
  ℕ, ◌+◌, ◌-◌, ◌*◌, ◌^◌, ◌≤◌, ◌<◌, ◌≡◌, refl, false, some, List, [], ◌∷◌, length, All, arith, ltb,
  IsNat64, lt64, le64-le, sub64_of_le, if◌then◌else◌,
}
use kubto.Platform.{Quantity, Float64}
use kubto.Monitor.Types.{PodInfo, ClusterState}
use kubto.Estimator.Packing.{EstimationReport, ResourceEstimator, ResourceDelta}
use kubto.Estimator.Packing.Trace.{Resource, cpu, mem, IsTemplate}
use kubto.Estimator.Estimate.{Sorter, estimate_detailed}
use kubto.Estimator.Estimate.Guarantees.{IsSorter, IsSized, IsAsking, delta-le}
use kubto.Decision.{Decision, ThresholdPolicy, ceil_div, needed_nodes, evaluate, decide}
use kubto.Decision.Division.{ceil_div_lem}
use kubto.Controller.Reconcile.{capped}

cancel : (x n b : ℕ) → x * b < n * b + b → x ≤ n
cancel x n b h = elim (dec_lt n x) [
  | no few ↦ omega arith
  | yes more ↦ absurd (omega (arith, mul-le-mul_right b more))
]

-- A shortfall of no more than `n` nodes asks for no more than `n` of them.
ceil_div-le : (a b n : ℕ) → 0 < b → n * b + b < 2 ^ 63 → a ≤ n * b → ceil_div a b ≤ n
ceil_div-le a b n pos small h =
    let (reach, least) = ceil_div_lem a b pos (omega arith) in
    cancel (ceil_div a b) n b (omega arith)

-- The tests of the count after the divisions.
most_within :
    (for_cpu for_mem n headroom : ℕ)
    → for_cpu ≤ n
    → for_mem ≤ n
    → 1 ≤ n
    → n < 2 ^ 63
    → headroom < 2 ^ 63
    → let most = if lt64 for_cpu for_mem then for_mem else for_cpu in
      let least = if lt64 most 1 then 1 else most in
      (if lt64 headroom least then headroom else least) ≤ n
unfolding lt64
most_within for_cpu for_mem n headroom a b one small room = ground arith

capped_of_le :
    (dec : Decision) (report : EstimationReport)
    → dec.count ≤ report.nodes_needed
    → capped dec report ≡ dec
unfolding capped
capped_of_le dec report h =
    let no_cap : (ltb report.nodes_needed dec.count ≡ false) = ground arith in rw no_cap refl

-- The policy divides by the capacity of the estimator's template, in which a pod can fit.
pub record Agrees {F : Type 0} (policy : ThresholdPolicy F) (e : ResourceEstimator) : Type 0 where
  pub same_cpu : policy.node_cpu_capacity_millicores ≡ e.node_cpu_capacity_millicores
  pub same_mem : policy.node_memory_capacity_bytes ≡ e.node_memory_capacity_bytes
  pub some_cpu : 0 < e.node_cpu_capacity_millicores
  pub some_mem : 0 < e.node_memory_capacity_bytes

-- The capacity of one node more than `n` is a signed 64-bit number.
abbrev pub IsAffordable : ResourceEstimator → ℕ → Type 0
IsAffordable e n =
    (n * e.node_cpu_capacity_millicores + e.node_cpu_capacity_millicores < 2 ^ 63)
    × (n * e.node_memory_capacity_bytes + e.node_memory_capacity_bytes < 2 ^ 63)

module _ {F : Type 0} (policy : ThresholdPolicy F) (e : ResourceEstimator) (same : Agrees policy e)
    (delta : ResourceDelta) (n : ℕ) (afford : IsAffordable e n) (one : 1 ≤ n)
    (cpu_within : delta.cpu_millicores ≤ n * e.node_cpu_capacity_millicores)
    (mem_within : delta.memory_bytes ≤ n * e.node_memory_capacity_bytes) where
  needed_nodes-le : (headroom : ℕ) → headroom < 2 ^ 63 → needed_nodes policy delta headroom ≤ n
  unfolding needed_nodes
  needed_nodes-le headroom room =
      most_within (ceil_div delta.cpu_millicores policy.node_cpu_capacity_millicores)
        (ceil_div delta.memory_bytes policy.node_memory_capacity_bytes) n headroom
        (rw same.same_cpu (ceil_div-le _ _ n same.some_cpu afford.0 cpu_within))
        (rw same.same_mem (ceil_div-le _ _ n same.some_mem afford.1 mem_within)) one
        (omega (arith, afford.0, mul-le-mul_left n same.some_cpu)) room

  -- So is every decision's count.
  evaluate-le :
      {Q : Type 0} ⦃q : Quantity Q⦄ (fl : Float64 F) (now : ℕ) (state : ClusterState Q)
      → policy.max_nodes < 2 ^ 63
      → IsNat64 (length state.nodes)
      → (evaluate fl policy now delta state).count ≤ n
  unfolding evaluate
  evaluate-le fl now state limit few = ground (
    arith,
    le64-le policy.max_nodes (length state.nodes),
    sub64_of_le policy.max_nodes (length state.nodes),
    needed_nodes-le (policy.max_nodes - length state.nodes),
  )

module _ {Q F : Type 0} ⦃q : Quantity Q⦄ (fl : Float64 F) (sort : Sorter Q F)
    (e : ResourceEstimator) (policy : ThresholdPolicy F) where
  -- Where the policy and the estimator have one capacity, the sort permutes, and the amounts and
  -- numbers of nodes are in range: whatever state the policy sees, the cap on the decision's count
  -- that comes with a positive estimate changes nothing, since the count never exceeds it.
  pub decide-capped :
      (start : ClusterState Q) (pods : List (PodInfo Q)) (now : ℕ) (state : ClusterState Q)
      → let report = estimate_detailed fl sort e (some start) pods in
        IsSorter sort
        → IsTemplate e
        → All IsSized start.nodes
        → All IsAsking pods
        → Agrees policy e
        → IsAffordable e report.nodes_needed
        → 1 ≤ report.nodes_needed
        → policy.max_nodes < 2 ^ 63
        → IsNat64 (length state.nodes)
        → capped (decide fl policy now report.delta state) report
          ≡ decide fl policy now report.delta state
  unfolding decide estimate_detailed
  decide-capped start [] now state sorts t sized asking same afford one limit few =
      absurd (omega arith)
  decide-capped start (p ∷ ps) now state sorts t sized asking same afford one limit few =
      let report = estimate_detailed fl sort e (some start) (p ∷ ps) in
      let within =
        λ (s : Resource). delta-le fl sort e (some start) (p ∷ ps) sorts t sized asking s in
      let le =
        evaluate-le policy e same report.delta report.nodes_needed afford one (within cpu)
          (within mem) fl now state limit few in
      capped_of_le (evaluate fl policy now report.delta state) report le
