-- ===== src/Controller/Metrics.antt =====
-- autoscaler/pkg/metrics/metrics.go: the values of the counters and gauges, and for each histogram
-- the number of its observations. Collectors has their registration.
pub mod Collectors
use kubto.Prelude.{ℕ, ◌+◌, Option, none, some, [], String, Assoc, lookup, insert}

pub record Metrics : Type 0 where
  pub pending_pods : ℕ
  pub active_nodes : ℕ
  pub estimated_required_nodes : ℕ
  pub infeasible_pods : ℕ
  pub scale_up_total : ℕ
  pub scale_down_total : ℕ
  pub nodes_provisioned_total : ℕ
  pub nodes_terminated_total : ℕ
  pub provision_failures_total : ℕ
  pub scaling_decisions_total : Assoc ℕ
  pub reconcile_observations : ℕ
  pub provision_observations : ℕ

unfoldable pub new_metrics : Metrics
new_metrics = record {
  pending_pods = 0;
  active_nodes = 0;
  estimated_required_nodes = 0;
  infeasible_pods = 0;
  scale_up_total = 0;
  scale_down_total = 0;
  nodes_provisioned_total = 0;
  nodes_terminated_total = 0;
  provision_failures_total = 0;
  scaling_decisions_total = [];
  reconcile_observations = 0;
  provision_observations = 0;
}

unfoldable pub set_pending_pods : ℕ → Metrics → Metrics
set_pending_pods count m = record m { pending_pods = count }

unfoldable pub set_active_nodes : ℕ → Metrics → Metrics
set_active_nodes count m = record m { active_nodes = count }

unfoldable pub set_estimated_required_nodes : ℕ → Metrics → Metrics
set_estimated_required_nodes count m = record m { estimated_required_nodes = count }

unfoldable pub set_infeasible_pods : ℕ → Metrics → Metrics
set_infeasible_pods count m = record m { infeasible_pods = count }

unfoldable pub inc_scale_up : Metrics → Metrics
inc_scale_up m = record m { scale_up_total = m.scale_up_total + 1 }

unfoldable pub inc_scale_down : Metrics → Metrics
inc_scale_down m = record m { scale_down_total = m.scale_down_total + 1 }

unfoldable pub inc_nodes_provisioned : ℕ → Metrics → Metrics
inc_nodes_provisioned count m = record m {
  nodes_provisioned_total = m.nodes_provisioned_total + count;
}

unfoldable pub inc_nodes_terminated : Metrics → Metrics
inc_nodes_terminated m = record m { nodes_terminated_total = m.nodes_terminated_total + 1 }

unfoldable pub inc_provision_failure : Metrics → Metrics
inc_provision_failure m = record m { provision_failures_total = m.provision_failures_total + 1 }

abbrev count_of : Option ℕ → ℕ
count_of none = 0
count_of (some n) = n

unfoldable pub record_decision : String → Metrics → Metrics
record_decision outcome m = record m {
  scaling_decisions_total =
      insert outcome (count_of (lookup outcome m.scaling_decisions_total) + 1)
        m.scaling_decisions_total;
}

unfoldable pub record_reconcile_duration : Metrics → Metrics
record_reconcile_duration m = record m { reconcile_observations = m.reconcile_observations + 1 }

unfoldable pub record_provision_duration : Metrics → Metrics
record_provision_duration m = record m { provision_observations = m.provision_observations + 1 }
