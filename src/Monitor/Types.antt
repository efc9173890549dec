-- ===== src/Monitor/Types.antt =====
-- autoscaler/pkg/monitor/cluster_state.go: `PodInfo`, `NodeInfo` and `ClusterState`.
-- The mutex is left out: every method holds it from its first line to its return.
use kubto.Prelude.{ℕ, Bool, Option, List, [], String, Assoc}
use kubto.Kube.{Taint, Toleration}

pub record PodInfo (Q : Type 0) : Type 0 where
  pub name : String
  pub namespace : String
  pub cpu_request : Q
  pub memory_request : Q
  pub status : String
  pub condition_reason : String
  pub condition_message : String
  pub node_name : String
  pub node_selector : Assoc String
  pub tolerations : List Toleration
  pub has_unsupported_constraints : Bool
  pub unsupported_reason : String

pub record NodeInfo (Q : Type 0) : Type 0 where
  pub name : String
  pub allocatable_cpu : Q
  pub allocatable_memory : Q
  pub used_cpu : Q
  pub used_memory : Q
  pub ready : Bool
  pub unschedulable : Bool
  pub created_at : ℕ
  pub labels : Option (Assoc String)
  pub taints : List Taint

pub record ClusterState (Q : Type 0) : Type 0 where
  pub pending_pods : List (PodInfo Q)
  pub scheduled_pods : List (PodInfo Q)
  pub nodes : List (NodeInfo Q)

unfoldable pub new_cluster_state : (Q : Type 0) → ClusterState Q
new_cluster_state Q = record { pending_pods = []; scheduled_pods = []; nodes = [] }
