-- ===== src/Estimator/Packing.antt =====
-- `EstimateDetailed` and `Estimate` (autoscaler/pkg/estimator/resource_estimator.go). The loop body
-- is cut in two: `choose` finds the branch that a pod takes, and `commit` makes the branch's
-- changes. The reason of an infeasible pod is a value.
pub mod Trace
pub mod Choice
pub mod Capacity
pub mod Merging
pub mod Allowed
use kubto.Prelude.{
  ℕ, suc, ◌*◌, Bool, true, not, ◌&&◌, ◌||◌, none, some, List, [], ◌∷◌, ◌++◌, String, ◌<>◌, decimal,
  Assoc, insert, length, get_elem?, modify, ◌==◌, if◌then◌else◌, add64, sub64, div64, lt64,
}
use kubto.Kube.{Taint}
use kubto.Utils.{node_role_worker}
use kubto.Estimator.Constraints.{Labels, can_pod_fit_constraints}
use kubto.Estimator.Bins.{SimulatedNode, PodCandidate, mebibyte, best_fit, take_capacity}

pub record ResourceDelta : Type 0 where
  pub cpu_millicores : ℕ
  pub memory_bytes : ℕ

unfoldable pub is_zero : ResourceDelta → Bool
is_zero r = r.cpu_millicores == 0 && r.memory_bytes == 0

-- The texts that `InfeasiblePods` holds.
pub data Reason : Type 0 where
  unsupported_constraint : String → Reason
  exceeds_template : (cpu mem : ℕ) → Reason
  unmet_constraints : Reason

-- The texts that `Explanations` holds.
pub data Explanation : Type 0 where
  nothing_to_evaluate : Explanation
  initial_capacity : (nodes cpu mem : ℕ) → Explanation
  is_infeasible : (pod : String) → Reason → Explanation
  is_infeasible_on_template : (pod : String) → Reason → Explanation
  fits_on_existing : (pod node : String) → (cpu mebibytes : ℕ) → Explanation
  fits_on_new : (pod node : String) → Explanation
  opened_new_node : (pod node : String) → Explanation
  summary : (existing_cpu existing_mem cpu mem new_nodes : ℕ) → Explanation

pub record EstimationReport : Type 0 where
  pub delta : ResourceDelta
  pub nodes_needed : ℕ
  pub placed_pods : Assoc String
  pub infeasible_pods : Assoc Reason
  pub explanations : List Explanation

pub record ResourceEstimator : Type 0 where
  pub node_cpu_capacity_millicores : ℕ
  pub node_memory_capacity_bytes : ℕ
  pub node_labels : Labels
  pub node_taints : List Taint

unfoldable pub new_resource_estimator : ResourceEstimator
new_resource_estimator = record {
  node_cpu_capacity_millicores = 2000;
  node_memory_capacity_bytes = 4 * 1024 * 1024 * 1024;
  node_labels = some ((node_role_worker, "") ∷ []);
  node_taints = [];
}

-- The branch that the loop body takes for a pod.
pub data Outcome : Type 0 where
  on_existing : ℕ → Outcome
  on_new : ℕ → Outcome
  opened : ℕ → Outcome
  too_large : Outcome
  incompatible : Outcome

-- The variables of the packing loop.
pub record Packing : Type 0 where
  pub candidates : List SimulatedNode
  pub open_new_nodes : List SimulatedNode
  pub consumed_existing_cpu : ℕ
  pub consumed_existing_mem : ℕ
  pub placed_pods : Assoc String
  pub infeasible_pods : Assoc Reason
  pub explanations : List Explanation

-- What is left of a node, in millicores and in mebibytes, when it holds the pod as well.
abbrev left_at : {Q F : Type 0} → List SimulatedNode → ℕ → PodCandidate Q F → ℕ × ℕ
left_at ns i pc = elim (get_elem? ns i) [
  | none ↦ (0, 0)
  | some n ↦ ((take_capacity pc n).free_cpu, div64 (take_capacity pc n).free_mem mebibyte)
]

abbrev pub name_at : List SimulatedNode → ℕ → String
name_at ns i = elim (get_elem? ns i) [ none ↦ "" | some n ↦ n.name ]

module _ {Q F : Type 0} (e : ResourceEstimator) where
  unfoldable pub choose : Packing → PodCandidate Q F → Outcome
  choose st pc = elim (best_fit pc st.candidates) [
    | some i ↦ on_existing i
    | none ↦ elim (best_fit pc st.open_new_nodes) [
      | some j ↦ on_new j
      | none ↦
          if lt64 e.node_cpu_capacity_millicores pc.cpu_milli
            || lt64 e.node_memory_capacity_bytes pc.mem_bytes
          then too_large
          else if not (can_pod_fit_constraints pc.info e.node_labels e.node_taints)
          then incompatible
          else opened (length st.open_new_nodes)
    ]
  ]

  unfoldable pub new_node : ℕ → PodCandidate Q F → SimulatedNode
  new_node k pc = record {
    name = "simulated-node-" <> decimal (suc k);
    is_new = true;
    free_cpu = sub64 e.node_cpu_capacity_millicores pc.cpu_milli;
    free_mem = sub64 e.node_memory_capacity_bytes pc.mem_bytes;
    labels = e.node_labels;
    taints = e.node_taints;
  }

  unfoldable pub commit : Packing → PodCandidate Q F → Outcome → Packing
  commit st pc (on_existing i) = record st {
    candidates = modify st.candidates i (take_capacity pc);
    consumed_existing_cpu = add64 st.consumed_existing_cpu pc.cpu_milli;
    consumed_existing_mem = add64 st.consumed_existing_mem pc.mem_bytes;
    placed_pods = insert pc.info.name (name_at st.candidates i) st.placed_pods;
    explanations =
        st.explanations
        ++ fits_on_existing pc.info.name (name_at st.candidates i) (left_at st.candidates i pc).0
            (left_at st.candidates i pc).1
          ∷ [];
  }
  commit st pc (on_new j) = record st {
    open_new_nodes = modify st.open_new_nodes j (take_capacity pc);
    placed_pods = insert pc.info.name (name_at st.open_new_nodes j) st.placed_pods;
    explanations = st.explanations ++ fits_on_new pc.info.name (name_at st.open_new_nodes j) ∷ [];
  }
  commit st pc (opened k) = record st {
    open_new_nodes = st.open_new_nodes ++ new_node k pc ∷ [];
    placed_pods = insert pc.info.name ("simulated-node-" <> decimal (suc k)) st.placed_pods;
    explanations =
        st.explanations ++ opened_new_node pc.info.name ("simulated-node-" <> decimal (suc k)) ∷ [];
  }
  commit st pc too_large = record st {
    infeasible_pods =
        insert pc.info.name (exceeds_template pc.cpu_milli pc.mem_bytes) st.infeasible_pods;
    explanations =
        st.explanations
        ++ is_infeasible pc.info.name (exceeds_template pc.cpu_milli pc.mem_bytes) ∷ [];
  }
  commit st pc incompatible = record st {
    infeasible_pods = insert pc.info.name unmet_constraints st.infeasible_pods;
    explanations = st.explanations ++ is_infeasible_on_template pc.info.name unmet_constraints ∷ [];
  }

  unfoldable pub pack : Packing → List (PodCandidate Q F) → Packing
  pack st [] = st
  pack st (pc ∷ pcs) = pack (commit st pc (choose st pc)) pcs
