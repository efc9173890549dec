-- ===== src/Estimator/Estimate.antt =====
-- `EstimateDetailed` and `Estimate` (autoscaler/pkg/estimator/resource_estimator.go): the bins, the
-- pods to pack, and the report.
pub mod Deficit
pub mod Guarantees
pub mod Plan
pub mod Coverage
use kubto.Prelude.{
  ℕ, Bool, false, not, ◌&&◌, ◌||◌, Option, none, some, List, [], ◌∷◌, ◌++◌, insert, length, ◌==◌,
  if◌then◌else◌, add64, sub64, lt64,
}
use kubto.Platform.{Quantity, Float64}
use kubto.Monitor.Types.{PodInfo, NodeInfo, ClusterState}
use kubto.Estimator.Bins.{SimulatedNode, PodCandidate}
use kubto.Estimator.Packing.{
  ResourceDelta, Explanation, initial_capacity, is_infeasible, summary, nothing_to_evaluate,
  EstimationReport, ResourceEstimator, unsupported_constraint, Packing, pack,
}

-- The snapshot of the free capacity, before any placement.
unfoldable total_free : ℕ → ℕ → List SimulatedNode → ℕ × ℕ
total_free cpu mem [] = (cpu, mem)
total_free cpu mem (n ∷ ns) = total_free (add64 cpu n.free_cpu) (add64 mem n.free_mem) ns

-- A free amount below 0 counts as 0.
abbrev pub clamped : ℕ → ℕ
clamped a = if lt64 a 0 then 0 else a

-- Step 5: what the new nodes hold.
unfoldable pub shortfall : ResourceEstimator → ResourceDelta → List SimulatedNode → ResourceDelta
shortfall e d [] = d
shortfall e d (n ∷ ns) =
    shortfall e
      (record {
        cpu_millicores = add64 d.cpu_millicores (sub64 e.node_cpu_capacity_millicores n.free_cpu);
        memory_bytes = add64 d.memory_bytes (sub64 e.node_memory_capacity_bytes n.free_mem);
      })
      ns

abbrev pub no_delta : ResourceDelta
no_delta = record { cpu_millicores = 0; memory_bytes = 0 }

module _ {F : Type 0} (fl : Float64 F) (e : ResourceEstimator) where
  unfoldable pub score_of : ℕ → ℕ → F
  score_of cpu mem =
      let cpu_score = fl.div (fl.of_int64 cpu) (fl.of_int64 e.node_cpu_capacity_millicores) in
      let mem_score = fl.div (fl.of_int64 mem) (fl.of_int64 e.node_memory_capacity_bytes) in
      if fl.gt mem_score cpu_score then mem_score else cpu_score

module _ {Q : Type 0} ⦃q : Quantity Q⦄ where
  unfoldable pub bin_of : NodeInfo Q → SimulatedNode
  bin_of n = record {
    name = n.name;
    is_new = false;
    free_cpu = clamped (sub64 (q.milli_value n.allocatable_cpu) (q.milli_value n.used_cpu));
    free_mem = clamped (sub64 (q.value n.allocatable_memory) (q.value n.used_memory));
    labels = n.labels;
    taints = n.taints;
  }

  -- Step 1: the ready, schedulable nodes.
  unfoldable pub bins_of : List (NodeInfo Q) → List SimulatedNode
  unfolding bin_of
  bins_of [] = []
  bins_of (n ∷ ns) =
      let rest = bins_of ns in if not n.ready || n.unschedulable then rest else bin_of n ∷ rest

  unfoldable pub candidates_of : Option (ClusterState Q) → List SimulatedNode
  unfolding bins_of
  candidates_of none = []
  candidates_of (some state) = bins_of state.nodes

  unfoldable pub start : Option (ClusterState Q) → Packing
  unfolding total_free
  start state = record {
    candidates = candidates_of state;
    open_new_nodes = [];
    consumed_existing_cpu = 0;
    consumed_existing_mem = 0;
    placed_pods = [];
    infeasible_pods = [];
    explanations =
        let (cpu, mem) = total_free 0 0 (candidates_of state) in
        initial_capacity (length (candidates_of state)) cpu mem ∷ [];
  }

  abbrev pub is_unasked : PodInfo Q → Bool
  is_unasked p = q.milli_value p.cpu_request == 0 && q.value p.memory_request == 0

  -- What a round of step 2 writes into the report.
  unfoldable pub note_pod : Packing → PodInfo Q → Packing
  note_pod st p =
      if p.has_unsupported_constraints
      then record st {
        infeasible_pods =
            insert p.name (unsupported_constraint p.unsupported_reason) st.infeasible_pods;
        explanations =
            st.explanations
            ++ is_infeasible p.name (unsupported_constraint p.unsupported_reason) ∷ [];
      }
      else if is_unasked p
      then record st {
        placed_pods = insert p.name "zero-request (no capacity required)" st.placed_pods;
      }
      else st

  module _ {F : Type 0} (fl : Float64 F) (e : ResourceEstimator) where
    unfoldable pub candidate_of : PodInfo Q → PodCandidate Q F
    unfolding score_of
    candidate_of p = record {
      info = p;
      cpu_milli = q.milli_value p.cpu_request;
      mem_bytes = q.value p.memory_request;
      score = score_of fl e (q.milli_value p.cpu_request) (q.value p.memory_request);
    }

    -- What a round of step 2 appends to the pods that are left to pack.
    unfoldable pub keep_pod : List (PodCandidate Q F) → PodInfo Q → List (PodCandidate Q F)
    keep_pod feasible p =
        if p.has_unsupported_constraints || is_unasked p
        then feasible
        else feasible ++ candidate_of p ∷ []

    unfoldable pub categorize :
        Packing → List (PodCandidate Q F) → List (PodInfo Q) → Packing × List (PodCandidate Q F)
    categorize st feasible [] = (st, feasible)
    categorize st feasible (p ∷ ps) = categorize (note_pod st p) (keep_pod feasible p) ps

-- The order of step 3. `sort.Slice` is the argument `sort` of `estimate_detailed`.
abbrev pub comes_first : {Q F : Type 0} → Float64 F → PodCandidate Q F → PodCandidate Q F → Bool
comes_first fl a b = fl.gt a.score b.score

abbrev pub report_of : ResourceEstimator → Packing → EstimationReport
report_of e st = record {
  delta = shortfall e no_delta st.open_new_nodes;
  nodes_needed = length st.open_new_nodes;
  placed_pods = st.placed_pods;
  infeasible_pods = st.infeasible_pods;
  explanations =
      let d = shortfall e no_delta st.open_new_nodes in
      st.explanations
      ++ summary st.consumed_existing_cpu st.consumed_existing_mem d.cpu_millicores d.memory_bytes
          (length st.open_new_nodes)
        ∷ [];
}

abbrev empty_report : EstimationReport
empty_report = record {
  delta = no_delta;
  nodes_needed = 0;
  placed_pods = [];
  infeasible_pods = [];
  explanations = nothing_to_evaluate ∷ [];
}

-- `sort.Slice`, which is not stable: any order that the test allows.
abbrev pub Sorter : (Q F : Type 0) → Type 0
Sorter Q F =
    (PodCandidate Q F → PodCandidate Q F → Bool) → List (PodCandidate Q F) → List (PodCandidate Q F)

module _ {Q F : Type 0} ⦃q : Quantity Q⦄ (fl : Float64 F) (sort : Sorter Q F)
    (e : ResourceEstimator) where
  -- The loop's variables after step 4, and the pods in the order in which they were packed.
  unfoldable pub packed :
      Option (ClusterState Q) → List (PodInfo Q) → Packing × List (PodCandidate Q F)
  packed state unschedulable =
      let (st, feasible) = categorize fl e (start state) [] unschedulable in
      let order = sort (comes_first fl) feasible in (pack e st order, order)

  unfoldable pub estimate_detailed : Option (ClusterState Q) → List (PodInfo Q) → EstimationReport
  unfolding packed
  estimate_detailed state [] = empty_report
  estimate_detailed state (p ∷ ps) = report_of e (packed state (p ∷ ps)).0

  unfoldable pub estimate : Option (ClusterState Q) → List (PodInfo Q) → ResourceDelta
  unfolding estimate_detailed
  estimate state unschedulable = (estimate_detailed state unschedulable).delta
