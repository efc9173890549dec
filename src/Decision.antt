-- ===== src/Decision.antt =====
-- autoscaler/pkg/decision/scaling_policy.go and decision_engine.go: `ThresholdPolicy`, and
-- `DecisionEngine`, which adds log lines only.
pub mod Division
pub mod Bounds
pub mod Cases
pub mod Engine
use kubto.Prelude.{
  ℕ, ◌-◌, ◌*◌, Bool, true, false, not, ◌&&◌, ◌||◌, Option, none, some, List, [], ◌∷◌, String,
  str_eq, length, ◌==◌, ltb, leb, if◌then◌else◌, add64, sub64, div64, lt64, le64, sub_time,
}
use kubto.Platform.{Quantity, Float64}
use kubto.Utils.{
  default_cpu_threshold_millicores, default_memory_threshold_mib, default_max_nodes,
  default_min_nodes, default_scale_down_cooldown,
}
use kubto.Monitor.Types.{NodeInfo, ClusterState}
use kubto.Estimator.Packing.{ResourceDelta, is_zero}

pub record Decision : Type 0 where
  pub scale_up : Bool
  pub scale_down : Bool
  pub count : ℕ
  pub node_name : String
  pub reason : String

pub record ThresholdPolicy (F : Type 0) : Type 0 where
  pub cpu_threshold_millicores : ℕ
  pub memory_threshold_bytes : ℕ
  pub low_water_mark_percent : F
  pub max_nodes : ℕ
  pub min_nodes : ℕ
  pub cooldown_period : ℕ
  pub node_cpu_capacity_millicores : ℕ
  pub node_memory_capacity_bytes : ℕ
  pub critical_pod_checker : Option (String → Bool)

unfoldable pub ceil_div : ℕ → ℕ → ℕ
ceil_div a b = if b == 0 then 0 else div64 (sub64 (add64 a b) 1) b

abbrev no_decision : String → Decision
no_decision reason = record {
  scale_up = false;
  scale_down = false;
  count = 0;
  node_name = "";
  reason = reason;
}

module _ {F : Type 0} where
  unfoldable pub has_critical_pods : ThresholdPolicy F → String → Bool
  has_critical_pods p name = elim p.critical_pod_checker [ none ↦ false | some check ↦ check name ]

  -- The number of nodes that a scale-up asks for, with `headroom` left below the limit.
  unfoldable pub needed_nodes : ThresholdPolicy F → ResourceDelta → ℕ → ℕ
  needed_nodes p delta headroom =
      let for_cpu = ceil_div delta.cpu_millicores p.node_cpu_capacity_millicores in
      let for_mem = ceil_div delta.memory_bytes p.node_memory_capacity_bytes in
      let most = if lt64 for_cpu for_mem then for_mem else for_cpu in
      let least = if lt64 most 1 then 1 else most in if lt64 headroom least then headroom else least

  -- The condition of the scale-up branch.
  unfoldable pub exceeds_threshold : ThresholdPolicy F → ResourceDelta → Bool
  exceeds_threshold p delta =
      not (is_zero delta)
      && (lt64 p.cpu_threshold_millicores delta.cpu_millicores
          || lt64 p.memory_threshold_bytes delta.memory_bytes)

module _ {Q F : Type 0} ⦃q : Quantity Q⦄ (fl : Float64 F) where
  -- The CPU utilisation in per cent.
  unfoldable pub utilisation : NodeInfo Q → F
  utilisation n =
      fl.mul
        (fl.div (fl.of_int64 (q.milli_value n.used_cpu))
          (fl.of_int64 (q.milli_value n.allocatable_cpu)))
        (fl.of_int64 100)

  -- The loop body of `scaleDownCandidate`: the node is returned.
  unfoldable pub is_candidate : ThresholdPolicy F → ℕ → NodeInfo Q → Bool
  is_candidate p now n =
      if not n.ready || n.unschedulable
      then false
      else if q.milli_value n.allocatable_cpu == 0
      then false
      else if fl.ge (utilisation n) p.low_water_mark_percent
      then false
      else if has_critical_pods p n.name
      then false
      else if le64 (sub_time now n.created_at) p.cooldown_period
      then false
      else true

  unfoldable pub scale_down_candidate : ThresholdPolicy F → ℕ → List (NodeInfo Q) → String
  scale_down_candidate p now [] = ""
  scale_down_candidate p now (n ∷ ns) =
      if is_candidate p now n then n.name else scale_down_candidate p now ns

  -- `now` is the clock at the call.
  unfoldable pub evaluate : ThresholdPolicy F → ℕ → ResourceDelta → ClusterState Q → Decision
  evaluate p now delta state =
      let current = length state.nodes in
      let candidate = scale_down_candidate p now state.nodes in
      if exceeds_threshold p delta
      then if le64 p.max_nodes current
        then no_decision "scale-up needed but already at MaxNodes limit (5)"
        else record {
          scale_up = true;
          scale_down = false;
          count = needed_nodes p delta (sub64 p.max_nodes current);
          node_name = "";
          reason = "unschedulable pods detected — resource shortfall exceeds threshold";
        }
      else if lt64 p.min_nodes current && not (str_eq candidate "")
      then record {
        scale_up = false;
        scale_down = true;
        count = 1;
        node_name = candidate;
        reason = "node meets all scale-down criteria (low util, no critical pods, age>cooldown)";
      }
      else no_decision "cluster resources within normal range — no action required"

  unfoldable pub decide : ThresholdPolicy F → ℕ → ResourceDelta → ClusterState Q → Decision
  decide p now delta state = evaluate p now delta state

module _ {F : Type 0} (fl : Float64 F) where
  unfoldable pub default_threshold_policy : (String → Bool) → ThresholdPolicy F
  default_threshold_policy critical_pod_fn = record {
    cpu_threshold_millicores = default_cpu_threshold_millicores;
    memory_threshold_bytes = default_memory_threshold_mib * 1024 * 1024;
    low_water_mark_percent = fl.of_int64 20;
    max_nodes = default_max_nodes;
    min_nodes = default_min_nodes;
    cooldown_period = default_scale_down_cooldown;
    node_cpu_capacity_millicores = 2000;
    node_memory_capacity_bytes = 4 * 1024 * 1024 * 1024;
    critical_pod_checker = some critical_pod_fn;
  }
